-- ===== src/Lifecycle/Waiting.antt =====
-- The invariant of the lifecycle, and that waiters are released.
use griffino_go.Base.{
  ℕ, ◌+◌, ◌<◌, true, false, some, List, [], ◌∷◌, ◌≡◌, ◌⊎◌, inl, inr, refl, arith, All, Bool-cases,
  Option-cases, ◌∙◌,
}
use griffino_go.Lifecycle.{
  Lifecycle, new_lifecycle, has, mark_started, mark_closed, wait_channel, released, is_started,
  is_closed, Event, start, close, step, run,
}

-- Channels are made before they are used, and the current one is closed exactly if the state says
-- so.
pub record IsValid (l : Lifecycle) : Type 0 where
  pub current_made : l.closed_ch < l.made
  pub shut_made : All (λ c. c < l.made) l.shut
  pub agrees : has l.closed_ch l.shut ≡ l.closed

has-fresh : (c : ℕ) (cs : List ℕ) → All (λ d. d < c) cs → has c cs ≡ false
has-fresh c [] h = refl
has-fresh c (d ∷ ds) (p, ps) = ground (arith, has-fresh c ds ps)

All-weaken : (c : ℕ) (cs : List ℕ) → All (λ d. d < c) cs → All (λ d. d < c + 1) cs
All-weaken c [] h = tt
All-weaken c (d ∷ ds) (p, ps) = (omega arith, All-weaken c ds ps)

pub new_lifecycle-IsValid : IsValid new_lifecycle
new_lifecycle-IsValid = record { current_made = omega arith; shut_made = tt; agrees = refl }

pub mark_started-IsValid : (l : Lifecycle) → IsValid l → IsValid (mark_started l)
unfolding mark_started
mark_started-IsValid l v = elim (Bool-cases l.closed) [
  | inl e ↦ rw e (record {
    current_made = omega arith;
    shut_made = All-weaken l.made l.shut v.shut_made;
    agrees = has-fresh l.made l.shut v.shut_made;
  })
  | inr e ↦
      rw e
        (record { current_made = v.current_made; shut_made = v.shut_made; agrees = v.agrees ∙ e })
]

pub mark_closed-IsValid :
    (l : Lifecycle)
    → IsValid l
    → (l' : Lifecycle) × (mark_closed l ≡ some l')
      × IsValid l'
      × (l'.closed ≡ true)
      × (released (wait_channel l) l' ≡ true)
unfolding mark_closed released wait_channel
mark_closed-IsValid l v = elim (Bool-cases l.closed) [
  | inl e ↦ (l, rw e refl, v, e, v.agrees ∙ e)
  | inr e ↦ (
    record l { closed = true; shut = l.closed_ch ∷ l.shut },
    rw (e, v.agrees ∙ e) refl,
    record {
      current_made = v.current_made;
      shut_made = (v.current_made, v.shut_made);
      agrees = ground arith;
    },
    refl,
    ground arith,
  )
]

-- From a valid lifecycle no order of markStarted and markClosed closes a channel twice: none of the
-- calls panics, and the lifecycle stays valid.
pub run_total :
    (es : List Event) (l : Lifecycle)
    → IsValid l
    → (l' : Lifecycle) × (run es l ≡ some l') × IsValid l'
unfolding run
run_total [] l v = (l, refl, v)
run_total (start ∷ es) l v = run_total es (mark_started l) (mark_started-IsValid l v)
run_total (close ∷ es) l v =
    let (l₁, e, v₁, _, _) = mark_closed-IsValid l v in
    let (l', e', v') = run_total es l₁ v₁ in (l', rw (e, run) e', v')

step-released :
    (e : Event) (c : ℕ) (l : Lifecycle) {l' : Lifecycle}
    → step e l ≡ some l'
    → released c l ≡ true
    → released c l' ≡ true
unfolding mark_started mark_closed released
step-released start c l h r = ground arith
step-released close c l h r = ground arith

run-released :
    (es : List Event) (c : ℕ) (l : Lifecycle) {l' : Lifecycle}
    → run es l ≡ some l'
    → released c l ≡ true
    → released c l' ≡ true
unfolding run
run-released [] c l h r = ground arith
run-released (e ∷ es) c l {l'} h r = elim (Option-cases (step e l)) [
  | inl missing ↦ cc (rw (missing, run) at h)
  | inr (l₁, found) ↦ run-released es c l₁ (rw (found, run) at h) (step-released e c l found r)
]

abbrev pub HasClose : List Event → Type 0
HasClose [] = ⊥
HasClose (close ∷ es) = Unit
HasClose (start ∷ es) = HasClose es

mark_started-wait_channel :
    (l : Lifecycle)
    → IsValid l
    → (released (wait_channel l) (mark_started l) ≡ true)
      ⊎ (wait_channel (mark_started l) ≡ wait_channel l)
unfolding mark_started wait_channel released
mark_started-wait_channel l v = elim (Bool-cases l.closed) [
  | inl e ↦ inl (rw e (v.agrees ∙ e))
  | inr e ↦ inr (rw e refl)
]

-- Whoever waits for the close, from a valid lifecycle, is released by the next markClosed, whatever
-- calls stand around it, a restart among them.
pub wait_channel-released :
    (es : List Event) (l : Lifecycle) {l' : Lifecycle}
    → IsValid l
    → HasClose es
    → run es l ≡ some l'
    → released (wait_channel l) l' ≡ true
unfolding run
wait_channel-released [] l v w h = absurd w
wait_channel-released (close ∷ es) l v w h =
    let (l₁, e, _, _, r) = mark_closed-IsValid l v in
    run-released es (wait_channel l) l₁ (rw (e, run) at h) r
wait_channel-released (start ∷ es) l v w h = elim (mark_started-wait_channel l v) [
  | inl r ↦ run-released es (wait_channel l) (mark_started l) h r
  | inr same ↦
      rw (← same) (wait_channel-released es (mark_started l) (mark_started-IsValid l v) w h)
]

restarted :
    (c : ℕ) (l : Lifecycle)
    → IsValid l
    → l.closed ≡ true
    → released c l ≡ true
    → (is_started (mark_started l) ≡ true)
      × (is_closed (mark_started l) ≡ false)
      × (released c (mark_started l) ≡ true)
      × (released (wait_channel (mark_started l)) (mark_started l) ≡ false)
unfolding mark_started released wait_channel is_started is_closed
restarted c l v shut r = rw shut (refl, refl, r, has-fresh l.made l.shut v.shut_made)

-- After a close of a valid lifecycle and a restart the client counts as started and open, who
-- waited before is released, and who waits from now on blocks again.
pub restart_lem :
    (l l₁ : Lifecycle)
    → IsValid l
    → mark_closed l ≡ some l₁
    → (is_started (mark_started l₁) ≡ true)
      × (is_closed (mark_started l₁) ≡ false)
      × (released (wait_channel l) (mark_started l₁) ≡ true)
      × (released (wait_channel (mark_started l₁)) (mark_started l₁) ≡ false)
restart_lem l l₁ v h =
    let (l₂, e, v₂, shut, r) = mark_closed-IsValid l v in
    let same : l₂ ≡ l₁ = cc in rw same at (restarted (wait_channel l) l₂ v₂ shut r)
