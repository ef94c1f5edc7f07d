-- ===== src/Examples/Sessions.antt =====
-- Examples on connections: internal/remote/manager.go, internal/profilebinding and
-- internal/security.
use host_ftp.Base.{
  ℕ, ◌+◌, ◌≤◌, ◌≡◌, ◌≢◌, ◌↔◌, ◌⊎◌, refl, Bytes, codes, true, false, [], ◌∷◌, ◌++◌, none, some,
  arith, All, text_eq, text_mem, split, contains_any, is_blank, trim_space, is_utf8, has_suffix,
  byte_mem,
}
use host_ftp.Security.Hosts.{
  validate_connection, validate_secret, validate_connection_lem, IsHost, line_ends,
}
use host_ftp.Security.LocalNames.{validate_name, validate_name_lem}
use host_ftp.Remote.Endpoints.{
  IsPlain, endpoint_matches, canonical_host, canonical_protocol, endpoint_matches_lem, endpoint_key,
  itoa, private_key_path_matches,
}
use host_ftp.Remote.Session.{
  Platform, ConnectionConfig, no_config, new_manager, Manager, Session, resolve, sftp,
}
use host_ftp.Remote.Session.Connect.{Outside, Request, connect, operation, release, disconnect}
use host_ftp.Remote.Session.Handover.{IsFresh}
use host_ftp.Remote.Session.Ownership.{IsKept}
use host_ftp.Remote.Session.Lifecycle.{Reach-closes_unused}
use host_ftp.Remote.Session.Leaks.{Reach-IsKept}
use host_ftp.Remote.Session.Phases.{Moves, Deed, deed, unused_yet, view, Reach-Moves}
use host_ftp.Remote.Session.Histories.{
  System, start, Reach, here, next, connects, begins, disconnects, ends,
}

abbrev plain : Platform
plain = record {
  lower = λ s. s;
  equal_fold = λ s t. text_eq s t;
  ip = λ s. false;
  key_equal = λ s t. text_eq s t;
  digest = λ s. true;
}

abbrev example_host : Bytes
example_host = codes "example.test"

validate_connection_lem_example :
    (text_mem sftp (codes "ftp" ∷ codes "ftps" ∷ codes "ftpsi" ∷ codes "sftp" ∷ []) ≡ true)
    × IsHost plain.ip example_host
    × (contains_any (codes "alice") line_ends ≡ false)
    × (1 ≤ 22)
    × (22 ≤ 65535)
validate_connection_lem_example =
    validate_connection_lem plain.ip sftp example_host (codes "alice") 22
      (unfold validate_connection text_mem text_eq is_blank trim_space is_utf8 contains_any in refl)

validate_name_lem_example :
    ((path : Bytes)
      → split b'/' (path ++ b'/' ∷ codes "com10.txt") ≡ split b'/' path ++ codes "com10.txt" ∷ [])
    × ((path : Bytes)
        → split b'\\' (path ++ b'\\' ∷ codes "com10.txt")
          ≡ split b'\\' path ++ codes "com10.txt" ∷ [])
    × (codes "com10.txt" ≢ codes ".")
    × (codes "com10.txt" ≢ codes "..")
validate_name_lem_example =
    validate_name_lem (λ s. s) (codes "com10.txt")
      (unfold validate_name is_blank text_eq trim_space is_utf8 has_suffix text_mem in refl)

-- With a dot at the end of the host.
one_endpoint : IsPlain plain.lower sftp (codes "example.test.") 22
one_endpoint = record {
  plain_protocol = unfold canonical_protocol byte_mem trim_space in refl;
  plain_host = unfold canonical_host byte_mem trim_space in refl;
  small_port = omega arith;
}

other_endpoint : IsPlain plain.lower (codes " sftp") example_host 22
other_endpoint = record {
  plain_protocol = unfold canonical_protocol byte_mem trim_space in refl;
  plain_host = unfold canonical_host byte_mem trim_space in refl;
  small_port = omega arith;
}

endpoint_matches_lem_example :
    (endpoint_matches plain.lower sftp (codes "example.test.") 22 (codes " sftp") example_host 22
      ≡ true)
    ↔ ((canonical_protocol plain.lower sftp ≡ canonical_protocol plain.lower (codes " sftp"))
        × (canonical_host plain.lower (codes "example.test.")
            ≡ canonical_host plain.lower example_host)
        × ◌≡◌ {A = ℕ} 22 22)
endpoint_matches_lem_example =
    endpoint_matches_lem plain.lower sftp (codes "example.test.") (codes " sftp") example_host 22 22
      one_endpoint other_endpoint

key : Bytes
key = codes "SHA256:k"

account : ConnectionConfig
account = record no_config {
  protocol = sftp;
  host = example_host;
  port = 22;
  username = codes "alice";
}

-- The first call asks whether the key is right, with the password put aside; the second one
-- confirms it.
asking : Request
asking = record {
  profile_id = [];
  input = record account { password = codes "pw" };
  trust = [];
  remember = false;
}

confirming : Request
confirming = record { profile_id = []; input = account; trust = key; remember = false }

working_outside : Outside
working_outside = record {
  profile = none;
  directory_safe = true;
  scanned = some key;
  now = 60;
  protections = record { password = some (codes "blob"); passphrase = none };
  known_hosts_written = true;
  fingerprint_saved = true;
  tool_found = true;
  files_written = true;
  listed = true;
}

confirmed_outside : Outside
confirmed_outside = record working_outside {
  protections = record { password = none; passphrase = none };
}

asked : System
asked = record start { manager = (connect plain working_outside asking start.manager).0 }

confirmed : System
confirmed = record asked { manager = (connect plain confirmed_outside confirming asked.manager).0 }

asked-IsFresh : IsFresh working_outside.protections start.manager.live
unfolding working_outside start new_manager text_mem
asked-IsFresh = record {
  new_password = λ b e. refl;
  new_passphrase = λ b e. refl;
  two_blobs = λ b c e f. absurd (cc);
}

confirmed-IsFresh : IsFresh confirmed_outside.protections asked.manager.live
unfolding confirmed_outside
confirmed-IsFresh = record {
  new_password = λ b e. absurd (cc);
  new_passphrase = λ b e. absurd (cc);
  two_blobs = λ b c e f. absurd (cc);
}

confirmed_history : Reach plain start confirmed
unfolding confirmed asked
confirmed_history =
    next (next here (connects working_outside asking asked-IsFresh))
      (connects confirmed_outside confirming confirmed-IsFresh)

Reach-IsKept_example : IsKept confirmed.manager
Reach-IsKept_example = Reach-IsKept plain confirmed_history

-- The password of the first call is the session's.
alice : Session
alice = record {
  number = 0;
  secrets = record {
    password_blob = codes "blob";
    passphrase_blob = [];
    owns_password = true;
    owns_passphrase = false;
  };
}

alice_connected : confirmed.manager.session ≡ some alice
unfolding confirmed alice connect asked start new_manager confirmed_outside confirming resolve
    is_blank asking validate_connection text_mem text_eq trim_space account is_utf8 contains_any
    validate_secret working_outside key endpoint_key canonical_protocol canonical_host itoa
    private_key_path_matches
alice_connected = refl

used : Manager
used = record (confirmed.manager) { active_ops = confirmed.manager.active_ops + 1 }

uses :
    (m : Manager) (x : Session)
    → m.session ≡ some x
    → operation m ≡ some (x, record m { active_ops = m.active_ops + 1 })
unfolding operation
uses m x e = ground (arith, e)

is_used : operation confirmed.manager ≡ some (alice, used)
unfolding used
is_used = uses confirmed.manager alice alice_connected

-- A transfer uses the session, which is then closed under it, and ends.
left_history :
    Reach plain start (record confirmed { manager = release (disconnect used); operations = [] })
unfolding used confirmed alice asked start
left_history =
    next (next (next confirmed_history (begins alice used is_used)) disconnects) (ends [] [] 0 refl)

Reach-closes_unused_example :
    ((release (disconnect used)).active_ops ≡ 0)
    × All (λ n. All (λ c. c ≢ n) confirmed.closed) []
    × (((release (disconnect used)).session ≡ none) ⊎ ((release (disconnect used)).closing ≡ none))
Reach-closes_unused_example = Reach-closes_unused plain left_history

used_history :
    Reach plain start (record confirmed { manager = used; operations = alice.number ∷ [] })
unfolding used confirmed alice asked start
used_history = next confirmed_history (begins alice used is_used)

Reach-Moves_example :
    (view new_manager ≡ unused_yet) × Moves Deed.disconnecting (view used) (view (disconnect used))
unfolding deed
Reach-Moves_example = Reach-Moves plain used_history disconnects
