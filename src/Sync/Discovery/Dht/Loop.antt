-- ===== src/Sync/Discovery/Dht/Loop.antt =====
-- internal/sync/discovery/dht.go: the loop `discoverPeersLoop` beside `Start` and `Stop`.
use clipman_daemon.Prelude.{
  ◌≡◌, refl, sym, ◌∙◌, Bool, true, false, not, ◌||◌, List, [], ◌∷◌, All, inl, inr, Bool-cases,
  arith, if◌then◌else◌,
}
use clipman_daemon.Sync.Discovery.Dht.{DhtDiscovery, start, stop}

-- A loop enters its select, waits there, discovers peers, has returned, or has panicked.
pub data Place : Type 0 where
  entering waiting discovering returned panicked : Place

-- The service, and a loop for each start.
pub record System (M : Type 0) : Type 0 where
  pub service : DhtDiscovery M
  pub loops : List Place

-- The operands of the select are read when it is entered: without a ticker that is a nil pointer.
unfoldable pub enter_select : {M : Type 0} → DhtDiscovery M → Place
enter_select d = if d.has_ticker then waiting else panicked

-- A loop at one place goes to another.
pub data Moves {M : Type 0} (d : DhtDiscovery M) (p q : Place) : Type 0 where
  enters : p ≡ entering → q ≡ enter_select d → Moves d p q
  ticks : p ≡ waiting → q ≡ discovering → Moves d p q
  discovers : p ≡ discovering → q ≡ entering → Moves d p q
  ends : p ≡ waiting → d.cancelled ≡ true → q ≡ returned → Moves d p q

-- One of the loops moves.
pub data OneMoves {M : Type 0} (d : DhtDiscovery M) : List Place → List Place → Type 0 where
  here : {p q : Place} {ps : List Place} → Moves d p q → OneMoves d (p ∷ ps) (q ∷ ps)
  there : {p : Place} {ps qs : List Place} → OneMoves d ps qs → OneMoves d (p ∷ ps) (p ∷ qs)

-- The loops after a start, which makes one unless the service runs or the DHT fails.
unfoldable pub loops_after : {M : Type 0} → Bool → DhtDiscovery M → List Place → List Place
loops_after makes d loops = if d.started || not makes then loops else entering ∷ loops

-- A start, a stop, or a move of a loop.
pub data Step {M : Type 0} (s t : System M) : Type 0 where
  starts :
      (makes : Bool)
      → t.service ≡ (start makes s.service).0
      → t.loops ≡ loops_after makes s.service s.loops
      → Step s t
  stops : t.service ≡ stop s.service → t.loops ≡ s.loops → Step s t
  moves : OneMoves s.service s.loops t.loops → t.service ≡ s.service → Step s t

-- The systems that a service which was never started comes to.
pub data Reach {M : Type 0} (d : DhtDiscovery M) : System M → Type 0 where
  first : {s : System M} → s ≡ record { service = d; loops = [] } → Reach d s
  later : {s t : System M} → Reach d s → Step s t → Reach d t

-- A loop lives under a service that runs or was stopped, and panics under one that was stopped.
abbrev IsFine : Bool → Bool → Place → Type 0
IsFine started cancelled p = ((started || cancelled) ≡ true) × (p ≡ panicked → cancelled ≡ true)

abbrev pub IsSound : {M : Type 0} → DhtDiscovery M → List Place → Type 0
IsSound d loops = (d.has_ticker ≡ d.started) × All (IsFine d.started d.cancelled) loops

-- Loops stay fine when the service starts, and when it stops for good.
All-IsFine :
    (a b a' b' : Bool) (ps : List Place)
    → ((a || b) ≡ true → (a' || b') ≡ true)
    → (b ≡ true → b' ≡ true)
    → All (IsFine a b) ps
    → All (IsFine a' b') ps
All-IsFine a b a' b' [] lives stopped fine = tt
All-IsFine a b a' b' (p ∷ ps) lives stopped fine =
    ((lives fine.0.0, λ e. stopped (fine.0.1 e)), All-IsFine a b a' b' ps lives stopped fine.1)

module _ {M : Type 0} where
  Moves-IsFine :
      (d : DhtDiscovery M) (p q : Place)
      → d.has_ticker ≡ d.started
      → Moves d p q
      → IsFine d.started d.cancelled p
      → IsFine d.started d.cancelled q
  unfolding enter_select
  Moves-IsFine d p q ticker (enters at to) fine =
      (fine.0, λ e. ground (arith, ticker, to, e, fine.0))
  Moves-IsFine d p q ticker (ticks at to) fine = (fine.0, λ e. cc (to, e))
  Moves-IsFine d p q ticker (discovers at to) fine = (fine.0, λ e. cc (to, e))
  Moves-IsFine d p q ticker (ends at gone to) fine = (fine.0, λ e. gone)

  OneMoves-IsFine :
      (d : DhtDiscovery M) (ps qs : List Place)
      → d.has_ticker ≡ d.started
      → OneMoves d ps qs
      → All (IsFine d.started d.cancelled) ps
      → All (IsFine d.started d.cancelled) qs
  OneMoves-IsFine d ps qs ticker (here m) fine = (Moves-IsFine d _ _ ticker m fine.0, fine.1)
  OneMoves-IsFine d ps qs ticker (there m) fine = (fine.0, OneMoves-IsFine d _ _ ticker m fine.1)

  start-IsSound :
      (makes : Bool) (d : DhtDiscovery M) (loops : List Place)
      → IsSound d loops
      → IsSound (start makes d).0 (loops_after makes d loops)
  unfolding start loops_after
  start-IsSound makes d loops sound = elim (Bool-cases d.started) [
    | inl runs ↦ simp (start, loops_after, runs) (rw runs at sound)
    | inr idle ↦ started makes idle
  ]
    where
      started : (b : Bool) → d.started ≡ false → IsSound (start b d).0 (loops_after b d loops)
      started true idle =
          rw (start, loops_after, idle)
            (
              refl,
              (
                (refl, λ e. cc (e)),
                All-IsFine d.started d.cancelled true d.cancelled loops (λ _. refl) (λ c. c)
                    sound.1,
              ),
            )
      started false idle = rw (start, loops_after, idle) (rw idle at sound)

  stop-IsSound :
      (d : DhtDiscovery M) (loops : List Place) → IsSound d loops → IsSound (stop d) loops
  unfolding stop
  stop-IsSound d loops sound = elim (Bool-cases d.started) [
    | inl runs ↦
        rw (stop, runs)
          (refl, All-IsFine d.started d.cancelled false true loops (λ _. refl) (λ _. refl) sound.1)
    | inr idle ↦ rw (stop, idle) (rw idle at sound)
  ]

  Step-IsSound : (s t : System M) → IsSound s.service s.loops → Step s t → IsSound t.service t.loops
  Step-IsSound s t sound (starts makes service loops) =
      rw (service, loops) (start-IsSound makes s.service s.loops sound)
  Step-IsSound s t sound (stops service loops) =
      rw (service, loops) (stop-IsSound s.service s.loops sound)
  Step-IsSound s t sound (moves move service) =
      rw service (sound.0, OneMoves-IsFine s.service s.loops t.loops sound.0 move sound.1)

Reach-IsSound :
    {M : Type 0} (d : DhtDiscovery M) (s : System M)
    → d.started ≡ false
    → d.has_ticker ≡ false
    → Reach d s
    → IsSound s.service s.loops
Reach-IsSound d s idle no_ticker (first e) = rw e (no_ticker ∙ sym idle, tt)
Reach-IsSound d t idle no_ticker (later {s} r step) =
    Step-IsSound s t (Reach-IsSound d s idle no_ticker r) step

safe_places :
    (a b : Bool) (ps : List Place) → All (IsFine a b) ps → All (λ p. p ≡ panicked → b ≡ true) ps
safe_places a b [] fine = tt
safe_places a b (p ∷ ps) fine = (fine.0.1, safe_places a b ps fine.1)

-- Whatever the order in which a service, at first not started, is started and stopped and its loops
-- move: a loop panics only after a stop.
pub panics_after_stop :
    {M : Type 0} (d : DhtDiscovery M) (s : System M)
    → d.started ≡ false
    → d.has_ticker ≡ false
    → Reach d s
    → All (λ p. p ≡ panicked → s.service.cancelled ≡ true) s.loops
panics_after_stop d s idle no_ticker r =
    safe_places s.service.started s.service.cancelled s.loops (Reach-IsSound d s idle no_ticker r).1

-- While the service runs and its last loop is about to enter the select, a stop leads to a panic.
pub stop_panics :
    {M : Type 0} (d : DhtDiscovery M) (s : System M) (loops : List Place)
    → Reach d s
    → s.service.started ≡ true
    → s.loops ≡ entering ∷ loops
    → Reach d (record { service = stop s.service; loops = panicked ∷ loops })
unfolding stop enter_select
stop_panics d s loops r runs at =
    later {s = record { service = stop s.service; loops = s.loops }} (later r (stops refl refl))
      (moves (rw at (here (enters refl (rw (enter_select, stop, runs) refl)))) refl)
