-- ===== src/Fleet/Tests.antt =====
-- One device with one credential, backed up by a driver that fetches one artifact.
use Prim.Native.Char.{code}
use Prim.Native.String.{◌++◌ as join_text}
use mathlib.Core.Option.{none-ne-some}
use netmantle.Prelude.{
  ℕ, zero, suc, ◌+◌, ◌*◌, ◌==◌, ◌≡◌, ◌≢◌, refl, true, false, Option, none, some, List, [], ◌∷◌,
  ◌++◌, pos, String, str_eq, str_eq_iff, id_eq, find_first, inl, positive, arith, if◌then◌else◌,
}
use netmantle.Prelude.Text.{strip_prefix, trim_space}
use netmantle.Db.{Table, empty_table, ok, err, not_found, second}
use netmantle.Db.Samples.{calm}
use netmantle.Db.Keys.{IsKeyed}
use netmantle.Fleet.Tables.{Device, CredentialRow, RunRow, Store, device_at, credential_at}
use netmantle.Fleet.Devices.{get_device, scan_device}
use netmantle.Fleet.Sealer.{Cipher, seal, seal_with, envelope, open_envelope, open_bytes, open_raw}
use netmantle.Fleet.Envelopes.{open_envelope-seal}
use netmantle.Fleet.Credentials.{
  Credential, missing, insert_credential, reveal_row, delete_credential_rows, create_credential,
  reveal, delete_credential,
}
use netmantle.Fleet.Secrets.{reveal-create_credential, reveal-delete_credential}
use netmantle.Fleet.Backup.{login_of, driven, prepare, backup_now, insert_versions}
use netmantle.Fleet.Routes.{Artifact, Plant, fetched, committed, Run}
use netmantle.Fleet.History.{read_version}
use netmantle.Fleet.Outcomes.{Leaves}
use netmantle.Fleet.Runs.{Settled, backup_now_err, backup_now_settles}
use netmantle.Fleet.Versions.{read_version-insert_versions}

-- Numbers in unary, each behind its strokes.
abbrev strokes : ℕ → String → String
strokes zero s = String.◌∷◌ "." s
strokes (suc n) s = String.◌∷◌ "a" (strokes n s)

abbrev unary : List ℕ → String
unary [] = ""
unary (n ∷ ns) = strokes n (unary ns)

abbrev from_unary : ℕ → String → List ℕ
from_unary k String.[] = []
from_unary k (String.◌∷◌ c s) = if code c == 46 then k ∷ from_unary 0 s else from_unary (suc k) s

from_unary-strokes : (n k : ℕ) (s : String) → from_unary k (strokes n s) ≡ (k + n) ∷ from_unary 0 s
from_unary-strokes zero k s = ground arith
from_unary-strokes (suc n) k s = ground (arith, from_unary-strokes n (suc k) s)

from_unary-unary : (ns : List ℕ) → some (from_unary 0 (unary ns)) ≡ some ns
from_unary-unary [] = refl
from_unary-unary (n ∷ ns) = ground (arith, from_unary-strokes n 0 (unary ns), from_unary-unary ns)

abbrev zeros : List ℕ
zeros = 0 ∷ 0 ∷ 0 ∷ 0 ∷ 0 ∷ 0 ∷ 0 ∷ 0 ∷ 0 ∷ 0 ∷ 0 ∷ 0 ∷ 0 ∷ 0 ∷ 0 ∷ 0 ∷ []

abbrev salt : List ℕ
salt = zeros

abbrev iv : List ℕ
iv = 1 ∷ 1 ∷ 1 ∷ 1 ∷ 1 ∷ 1 ∷ 1 ∷ 1 ∷ 1 ∷ 1 ∷ 1 ∷ 1 ∷ []

-- An AEAD that knows one text.
abbrev toy : Cipher
toy = record {
  Aead = Unit;
  derive = λ master salt. some tt;
  seal = λ k nonce text. zeros;
  open_text = λ k nonce ct. some "pw";
  encode = unary;
  decode = λ s. some (from_unary 0 s);
  length-seal = λ k nonce text. omega arith;
  decode-encode = from_unary-unary;
}

abbrev sealed_pw : String
sealed_pw = join_text "v1." (unary (salt ++ (iv ++ zeros)))

sealed : seal toy "m" (some salt) (some iv) "pw" ≡ ok sealed_pw
unfolding seal seal_with envelope
sealed = refl

open_envelope-seal_example : open_envelope toy "m" sealed_pw ≡ ok "pw"
open_envelope-seal_example =
    open_envelope-seal toy "m" salt iv "pw" sealed_pw refl refl (λ k nonce. refl) sealed

abbrev login : Credential
login = record {
  id = pos 0;
  tenant_id = pos 1;
  name = "core";
  username = "admin";
  created_at = 0;
  last_used_at = none;
}

abbrev router : Device
router = record {
  id = pos 1;
  tenant_id = pos 1;
  hostname = "r1";
  address = "10.0.0.1";
  port = pos 22;
  driver = "cisco_ios";
  group_id = none;
  credential_id = some (pos 1);
  created_at = 900;
}

abbrev bare : Store
bare = record {
  groups = empty_table;
  devices = record { rows = router ∷ []; next_id = 2 };
  credentials = empty_table;
  runs = empty_table;
  versions = empty_table;
  audit_log = [];
}

abbrev made : Credential
made = record login { id = pos 1; created_at = 1000 * second }

created : (create_credential toy "m" (some salt) (some iv) login "pw" (calm bare)).0 ≡ ok made
unfolding create_credential seal seal_with envelope insert_credential find_first trim_space positive
    missing
created = refl

abbrev kept : CredentialRow
kept = record {
  id = pos 1;
  tenant_id = pos 1;
  name = "core";
  username = "admin";
  secret_envelope = sealed_pw;
  created_at = 1000;
  last_used_at = none;
}

abbrev stocked : Store
stocked = record bare { credentials = record { rows = kept ∷ []; next_id = 2 } }

bare-IsKeyed : IsKeyed (λ (c : CredentialRow). c.id) bare.credentials
bare-IsKeyed = record { unique = tt; below = tt }

reveal-create_credential_example :
    (reveal toy "m"
      (pos 1)
      (pos 1)
      (calm (create_credential toy "m" (some salt) (some iv) login "pw" (calm bare)).1.store)).0
    ≡ ok ("admin", "pw")
reveal-create_credential_example =
    reveal-create_credential toy "m" salt iv login made "pw" (calm bare)
      (calm (create_credential toy "m" (some salt) (some iv) login "pw" (calm bare)).1.store) refl
      refl (λ k nonce. refl) bare-IsKeyed created refl refl

revealed : (reveal toy "m" (pos 1) (pos 1) (calm stocked)).0 ≡ ok ("admin", "pw")
unfolding reveal reveal_row credential_at find_first id_eq open_envelope open_bytes open_raw
    strip_prefix
revealed = refl

deleted : (delete_credential (pos 1) (pos 1) (calm stocked)).0 ≡ ok tt
unfolding delete_credential delete_credential_rows credential_at find_first id_eq
deleted = refl

reveal-delete_credential_example :
    (reveal toy "m"
      (pos 1)
      (pos 1)
      (calm (delete_credential (pos 1) (pos 1) (calm stocked)).1.store)).0
    ≢ ok ("admin", "pw")
reveal-delete_credential_example =
    reveal-delete_credential toy "m" (pos 1) (pos 1) (calm stocked)
      (calm (delete_credential (pos 1) (pos 1) (calm stocked)).1.store) "admin" "pw" deleted refl

abbrev running_config : Artifact
running_config = record { name = "running-config"; content = "hostname r1"; size = 11 }

abbrev site : Plant
site = record {
  known = λ d. str_eq d "cisco_ios";
  configured = λ f. false;
  fetch = λ f d user secret. fetched (running_config ∷ []);
  run = λ f d user secret command. ok "";
  commit = λ tenant device name actor arts. committed "c0ffee";
  read = λ tenant device artifact sha. ok "hostname r1";
  encode = λ s. s;
  quote = λ s. s;
  audit = none;
  hooks = [];
}

prepared :
    (prepare site toy "m" (pos 1) (pos 1) (calm stocked)).0
    ≡ ok (scan_device router, ("admin", "pw"))
unfolding prepare get_device driven login_of reveal reveal_row device_at credential_at find_first
    id_eq open_envelope open_bytes open_raw strip_prefix
prepared = refl

site-Leaves : (runs : Table RunRow) → Leaves site (calm stocked).fault runs
site-Leaves runs = record {
  hooks = λ tenant dev sha arts. tt;
  audit = λ service e row w h. absurd (none-ne-some service e);
}

runs-IsKeyed : IsKeyed (λ (r : RunRow). r.id) stocked.runs
runs-IsKeyed = record { unique = tt; below = tt }

backup_now_settles_example :
    (x : Run) × (p : Option String) × ((backup_now site toy "m"
        (pos 1)
        (pos 1)
        "ann"
        (calm stocked)).0
      ≡ ok (x, p))
    × Settled site x p (backup_now site toy "m" (pos 1) (pos 1) "ann" (calm stocked)).1
backup_now_settles_example =
    backup_now_settles site toy "m" (pos 1) (pos 1) "ann" (calm stocked)
      (scan_device router, ("admin", "pw")) prepared (λ n. refl) site-Leaves runs-IsKeyed

other_tenant : (backup_now site toy "m" (pos 2) (pos 1) "ann" (calm stocked)).0 ≡ err not_found
unfolding backup_now prepare get_device device_at find_first id_eq
other_tenant = refl

backup_now_err_example :
    (backup_now site toy "m" (pos 2) (pos 1) "ann" (calm stocked)).1.store ≡ stocked
backup_now_err_example =
    backup_now_err site toy "m" (pos 2) (pos 1) "ann" (calm stocked) not_found other_tenant

running_named : ◌≢◌ {A = String} "running-config" ""
running_named e =
    let no : str_eq "running-config" "" ≡ true = (str_eq_iff "running-config" "").1 e in
    ground arith

coffee_named : ◌≢◌ {A = String} "c0ffee" ""
coffee_named e = let no : str_eq "c0ffee" "" ≡ true = (str_eq_iff "c0ffee" "").1 e in ground arith

read_version-insert_versions_example :
    (read_version site
      (pos 1)
      (pos 1)
      "running-config"
      "c0ffee"
      (calm (insert_versions (pos 1) "c0ffee" 1000 (running_config ∷ []) (calm stocked)).1.store)).0
    ≡ ok "hostname r1"
read_version-insert_versions_example =
    read_version-insert_versions site (pos 1) (pos 1) "c0ffee" "hostname r1" 1000 running_config
      (running_config ∷ []) (calm stocked)
      (calm (insert_versions (pos 1) "c0ffee" 1000 (running_config ∷ []) (calm stocked)).1.store)
      (λ n. refl) (inl refl) running_named coffee_named (λ r h. h) refl refl
