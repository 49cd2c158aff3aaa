-- ===== src/Cli/Pair/Consent.antt =====
-- internal/cli/cmd/pair.go: which devices the pairing mode pairs.
use clipman_daemon.Prelude.{
  ◌≡◌, ◌≢◌, ◌⊎◌, refl, sym, ap, ◌∙◌, inl, inr, Bool, true, false, Option, none, some, List, [], ◌∷◌,
  Bytes, arith, Bool-cases, Option-cases,
}
use clipman_daemon.Sync.Pairing.{
  PairingManager, PairingRequest, PairingRequestCallback, Decision, decided, handler_failed,
  disable_pairing,
}
use clipman_daemon.Sync.External.{ExternalRequest, external_request, internal_handler}
use clipman_daemon.Sync.Pairing.Code.{Hmac}
use clipman_daemon.Sync.Pairing.Protocol.{
  Incoming, Answer, respond, call_handler, handle_pairing_request,
}
use clipman_daemon.Cli.Pair.{
  Terminal, PairingEvent, incoming, timer_fires, pairing_callback, pairing_loop, meanwhile, is_yes,
}

-- A handler that accepts nothing.
abbrev pub Refuses : PairingRequestCallback → Type 0
Refuses handler = (request : PairingRequest) (peer : Bytes) → handler request peer ≢ decided true

-- A handler, if there is one, accepts nothing.
abbrev pub IsRefusing : PairingManager → Type 0
IsRefusing pm =
    (handler : PairingRequestCallback) → pm.incoming_handler ≡ some handler → Refuses handler

respond-manager :
    (hmac : Hmac) (pm : PairingManager) (request : PairingRequest) (random : Bytes) (i : Incoming)
    (d : Decision)
    → d ≢ decided true
    → (respond hmac pm request random i d).manager ≡ pm
unfolding respond
respond-manager hmac pm request random i (handler_failed text) refused = refl
respond-manager hmac pm request random i (decided false) refused = refl
respond-manager hmac pm request random i (decided true) refused = absurd (refused refl)

call_handler-manager :
    (hmac : Hmac) (pm : PairingManager) (request : PairingRequest) (random : Bytes) (i : Incoming)
    (a : Answer)
    → IsRefusing pm
    → call_handler hmac pm request random i ≡ some a
    → a.manager ≡ pm
unfolding call_handler
call_handler-manager hmac pm request random i a refusing e =
    elim (Option-cases pm.incoming_handler) [
      | inl nobody ↦ absurd (ground (arith, e, nobody))
      | inr (handler, known) ↦ ground (
        arith,
        e,
        known,
        respond-manager hmac pm request random i (handler request i.remote_peer)
            (refusing handler known request i.remote_peer),
      )
    ]

-- A request leaves the manager as it was, or as it was made meanwhile.
handle_pairing_request-manager :
    (hmac : Hmac) (change : PairingManager → PairingManager) (pm : PairingManager) (i : Incoming)
    (a : Answer)
    → IsRefusing (change pm)
    → handle_pairing_request hmac change pm i ≡ some a
    → (a.manager ≡ pm) ⊎ (a.manager ≡ change pm)
unfolding handle_pairing_request
handle_pairing_request-manager hmac change pm i a refusing e =
    elim (Bool-cases pm.pairing_enabled) [
      | inl on ↦ elim (Option-cases i.request) [
        | inl unread ↦ inr (ground (arith, e, on, unread))
        | inr (read', there) ↦ parsed on read' there
      ]
      | inr off ↦ inl (ground (arith, e, off))
    ]
  where
    parsed :
        pm.pairing_enabled ≡ true
        → (read' : Option PairingRequest) → i.request ≡ some read'
        → (a.manager ≡ pm) ⊎ (a.manager ≡ change pm)
    parsed on none there = inr (ground (arith, e, on, there))
    parsed on (some request) there = elim (Option-cases i.random) [
      | inl failed ↦ inr (ground (arith, e, on, there, failed))
      | inr (random, drawn) ↦ inr (
          call_handler-manager hmac (change pm) request random i a refusing
            (sym (ground (arith, on, there, drawn)) ∙ e))
    ]

meanwhile-paired_devices :
    (ends : Bool) (pm : PairingManager) → (meanwhile ends pm).paired_devices ≡ pm.paired_devices
unfolding disable_pairing
meanwhile-paired_devices ends pm = ground (arith)

disable_pairing-IsRefusing : (pm : PairingManager) → IsRefusing pm → IsRefusing (disable_pairing pm)
unfolding disable_pairing
disable_pairing-IsRefusing pm refusing handler known = elim (Bool-cases pm.pairing_enabled) [
  | inl on ↦ absurd (ground (arith, known, on))
  | inr off ↦ refusing handler (ground (arith, known, off))
]

meanwhile-IsRefusing :
    (ends : Bool) (pm : PairingManager) → IsRefusing pm → IsRefusing (meanwhile ends pm)
meanwhile-IsRefusing true pm refusing = disable_pairing-IsRefusing pm refusing
meanwhile-IsRefusing false pm refusing = refusing

-- A manager whose handler accepts nothing has the same devices after any events.
pub pairing_loop-paired_devices :
    (hmac : Hmac) (events : List PairingEvent) (pm pm' : PairingManager)
    → IsRefusing pm
    → pairing_loop hmac pm events ≡ some pm'
    → pm'.paired_devices ≡ pm.paired_devices
unfolding pairing_loop
pairing_loop-paired_devices hmac [] pm pm' refusing e = ground (arith, e)
pairing_loop-paired_devices hmac (timer_fires ∷ events) pm pm' refusing e =
    pairing_loop-paired_devices hmac events (disable_pairing pm) pm'
      (disable_pairing-IsRefusing pm refusing) e
    ∙ meanwhile-paired_devices true pm
pairing_loop-paired_devices hmac (incoming ends i ∷ events) pm pm' refusing e =
    elim (Option-cases (handle_pairing_request hmac (meanwhile ends) pm i)) [
      | inl panic ↦ absurd (ground (arith, e, panic))
      | inr (a, answered) ↦
          let later = rw (pairing_loop, answered) at e in
          elim (handle_pairing_request-manager hmac (meanwhile ends) pm i a
            (meanwhile-IsRefusing ends pm refusing) answered) [
              | inl same ↦
                  pairing_loop-paired_devices hmac events a.manager pm' (rw same refusing) later
                  ∙ ap (λ x. x.paired_devices) same
              | inr changed ↦
                  pairing_loop-paired_devices hmac events a.manager pm'
                    (rw changed (meanwhile-IsRefusing ends pm refusing)) later
                  ∙ ap (λ x. x.paired_devices) changed
                  ∙ meanwhile-paired_devices ends pm
            ]
    ]

-- What is typed is never a yes, and requests are not accepted by a flag.
pub record NoConsent (t : Terminal) : Type 0 where
  pub asks : t.accept_all ≡ false
  pub says_no :
      (request : ExternalRequest) (peer line : Bytes)
      → t.answer_to request peer ≡ some line
      → is_yes t.lower line ≡ false

pairing_callback-Refuses :
    (t : Terminal) → NoConsent t → Refuses (internal_handler (pairing_callback t))
unfolding pairing_callback internal_handler
pairing_callback-Refuses t no_consent request peer accepted =
    elim (Option-cases (t.answer_to (external_request request) peer)) [
      | inl nothing ↦ ground (arith, accepted, nothing, no_consent.asks)
      | inr (line, typed) ↦ ground (
        arith,
        accepted,
        typed,
        no_consent.asks,
        no_consent.says_no (external_request request) peer line typed,
      )
    ]

pub known-IsRefusing :
    (t : Terminal) (pm : PairingManager)
    → NoConsent t
    → pm.incoming_handler ≡ some (internal_handler (pairing_callback t))
    → IsRefusing pm
known-IsRefusing t pm no_consent known handler known' request peer accepted =
    let same : internal_handler (pairing_callback t) ≡ handler = cc (sym known ∙ known') in
    pairing_callback-Refuses t no_consent request peer (ap (λ h. h request peer) same ∙ accepted)
