-- ===== src/Client/Tests.antt =====
-- The clients of lab_nw/kv-server*/client.c on concrete lines and answers.
use cs.Base.{◌≡◌, true, false, some, [], ◌∷◌, Bytes}
use cs.Client.{Typed, create_line, Net, ClientKind, created_text}
use cs.Client.Session.{command}
use cs.Client.Protocol.{any, is_gave, gives, command-gives}

abbrev pooled_kind : ClientKind
pooled_kind = record { pooled = true; prints_read = false }

abbrev single_kind : ClientKind
single_kind = record { pooled = false; prints_read = false }

abbrev answered : Bytes → Net
answered r = record {
  connects = true;
  sends = true;
  response = some r;
  size = some 1;
  value = some (b'v' ∷ []);
  sends_value = true;
}

abbrev typed : Typed
typed = create_line 1 2 (b'v' ∷ [])

command-gives_example :
    any is_gave (command pooled_kind (answered created_text) true typed).acts
    ≡ gives pooled_kind (answered created_text) true typed
command-gives_example = command-gives pooled_kind (answered created_text) true typed
