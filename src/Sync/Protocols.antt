-- ===== src/Sync/Protocols.antt =====
-- internal/sync/protocols.go: the registry of protocol handlers, by protocol. A handler has the type `H`.
use clipman_daemon.Prelude.{
  Bool, true, false, not, Option, none, some, [], ◌∷◌, Bytes, codes, if◌then◌else◌, is_some,
}
use clipman_daemon.Prelude.Dict.{Dict, lookup, insert, delete}

abbrev pub pairing_protocol_path : Bytes
pairing_protocol_path = codes "/clipman/1.0.0/pairing"

-- `stream_handlers` are the protocols that the host serves; the context is `cancelled` for good.
pub record ProtocolManager (H : Type 0) : Type 0 where
  pub started : Bool
  pub cancelled : Bool
  pub handlers : Dict H
  pub stream_handlers : Dict H

pub data StreamError : Type 0 where
  no_handler open_failed : StreamError

module _ {H : Type 0} where
  unfoldable pub new_protocol_manager : ProtocolManager H
  new_protocol_manager = record {
    started = false;
    cancelled = false;
    handlers = [];
    stream_handlers = [];
  }

  unfoldable pub add_handler : Bytes → H → ProtocolManager H → ProtocolManager H
  add_handler id handler pm = record pm { handlers = insert id handler pm.handlers }

  -- The loop of `Start`: a handler serves its protocol also if its own Start fails. The argument gives
  -- what a handler becomes.
  unfoldable pub start_handlers : (H → H) → Dict H → Dict H → Dict H × Dict H
  start_handlers start_one [] served = ([], served)
  start_handlers start_one ((id, h) ∷ handlers') served =
      let rest = start_handlers start_one handlers' (insert id (start_one h) served) in
      ((id, start_one h) ∷ rest.0, rest.1)

  unfoldable pub start : (H → H) → ProtocolManager H → ProtocolManager H
  unfolding start_handlers
  start start_one pm =
      if pm.started
      then pm
      else let r = start_handlers start_one pm.handlers pm.stream_handlers in
        record pm { handlers = r.0; stream_handlers = r.1; started = true }

  unfoldable pub stop_handlers : (H → H) → Dict H → Dict H → Dict H × Dict H
  stop_handlers stop_one [] served = ([], served)
  stop_handlers stop_one ((id, h) ∷ handlers') served =
      let rest = stop_handlers stop_one handlers' (delete id served) in
      ((id, stop_one h) ∷ rest.0, rest.1)

  unfoldable pub stop : (H → H) → ProtocolManager H → ProtocolManager H
  unfolding stop_handlers
  stop stop_one pm =
      if not pm.started
      then pm
      else let r = stop_handlers stop_one pm.handlers pm.stream_handlers in
        record pm { handlers = r.0; stream_handlers = r.1; cancelled = true; started = false }

  unfoldable pub get_handler : ProtocolManager H → Bytes → Option H
  get_handler pm id = lookup id pm.handlers

  -- `OpenStream`, with whether the host opens one under a context that is cancelled or not.
  unfoldable pub open_stream : ProtocolManager H → Bytes → (Bool → Bool) → Option StreamError
  unfolding get_handler
  open_stream pm id opens =
      if not (is_some (get_handler pm id))
      then some no_handler
      else if opens pm.cancelled
      then none
      else some open_failed
