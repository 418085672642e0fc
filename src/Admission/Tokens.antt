-- ===== src/Admission/Tokens.antt =====
-- The operations of a lease (proxy/api_admission.go), branch by branch, and the token account.
use kiro_go_plus.Base.{
  ℕ, ◌+◌, ◌-◌, ◌*◌, ◌≤◌, ◌<◌, ◌≡◌, ap, subst, ◌∙◌, ◌⊎◌, inl, inr, true, false, ◌||◌, none, some,
  arith, ◌↔◌, max, beq_refl, ◌/◌, bytes_eq, nat_eq, ◌==◌, ltb, if◌then◌else◌,
}
use kiro_go_plus.Base.Dict.{lookup, insert, lookup-insert}
use kiro_go_plus.Base.Text.{Text}
use kiro_go_plus.Base.Time.{second, minute}
use kiro_go_plus.Admission.{
  AdmissionState, Manager, Lease, Reason, tokens_per_minute_exceeded, admission_limit_error,
  until_window_end, state_locked, reset_admission_window, free_slot, release, add_reservation,
  reserved_in, reserve_tokens, reconcile_tokens, retry_after_seconds,
}

-- The key's state as a section sees it: created if new, and its window restarted if it is over.
abbrev pub current : Text → ℕ → Manager → AdmissionState
current key now m = reset_admission_window (state_locked key now m) now

pub release-cases :
    (l : Lease) (now : ℕ) (m : Manager)
    → ((l.released ≡ true) × (release l now m ≡ (l, m)))
      ⊎ ((l.released ≡ false)
          × (release l now m
              ≡ (record l { released = true }, free_slot l.key_id now (lookup l.key_id m) m)))
unfolding release
release-cases l now m = ground arith

pub add_reservation_keeps :
    (l : Lease) (window tokens : ℕ)
    → ((add_reservation l window tokens).key_id ≡ l.key_id)
      × ((add_reservation l window tokens).released ≡ l.released)
      × ((add_reservation l window tokens).tokens_finalized ≡ l.tokens_finalized)
      × ((add_reservation l window tokens).tokens_per_minute ≡ l.tokens_per_minute)
unfolding add_reservation
add_reservation_keeps l window tokens = ground arith

-- A reservation is ignored, refused for want of tokens, or made.
pub reserve-cases :
    (l : Lease) (tokens now : ℕ) (m : Manager)
    → let s = current l.key_id now m in
      (((tokens == 0 || l.tokens_per_minute == 0) ≡ true)
        × (reserve_tokens l tokens now m ≡ (l, m, none)))
      ⊎ ((l.tokens_per_minute < s.tokens + tokens)
          × (reserve_tokens l tokens now m ≡ (
            l,
            insert l.key_id s m,
            some (admission_limit_error tokens_per_minute_exceeded (until_window_end s now)),
          )))
      ⊎ ((s.tokens + tokens ≤ l.tokens_per_minute)
          × (reserve_tokens l tokens now m ≡ (
            add_reservation l s.window_started tokens,
            insert l.key_id (record s { tokens = s.tokens + tokens }) m,
            none,
          )))
unfolding reserve_tokens
reserve-cases l tokens now m = ground arith

pub reconcile-cases :
    (l : Lease) (actual now : ℕ) (m : Manager)
    → let s = current l.key_id now m in
      (((l.tokens_per_minute == 0 || l.tokens_finalized) ≡ true)
        × (reconcile_tokens l actual now m ≡ (l, m)))
      ⊎ (((l.tokens_per_minute == 0 || l.tokens_finalized) ≡ false)
          × (reconcile_tokens l actual now m ≡ (
            record l { tokens_finalized = true },
            insert l.key_id
                (record s { tokens = s.tokens + actual - reserved_in l s.window_started })
                m,
          )))
unfolding reconcile_tokens
reconcile-cases l actual now m = ground arith

reserved_in-add_reservation :
    (l : Lease) (window tokens : ℕ)
    → 0 < window
    → reserved_in (add_reservation l window tokens) window ≡ reserved_in l window + tokens
unfolding reserved_in add_reservation
reserved_in-add_reservation l window tokens h = ground arith

-- A window that is not over is kept by a section.
current-insert :
    (key : Text) (now : ℕ) (s : AdmissionState) (m : Manager)
    → 0 < s.window_started
    → now < s.window_started + minute
    → current key now (insert key s m) ≡ s
unfolding reset_admission_window state_locked
current-insert key now s m started open_window =
    ground (arith, lookup-insert key key s m, beq_refl key)

-- A section leaves a window that is not over.
current_open :
    (key : Text) (now : ℕ) (m : Manager) → now < (current key now m).window_started + minute
unfolding reset_admission_window
current_open key now m = ground arith

reserve_accepts :
    (l : Lease) (tokens now : ℕ) (m : Manager)
    → 0 < tokens
    → 0 < l.tokens_per_minute
    → (current l.key_id now m).tokens + tokens ≤ l.tokens_per_minute
    → reserve_tokens l tokens now m ≡ (
      add_reservation l (current l.key_id now m).window_started tokens,
      insert l.key_id
          (record (current l.key_id now m) { tokens = (current l.key_id now m).tokens + tokens })
          m,
      none,
    )
unfolding reserve_tokens
reserve_accepts l tokens now m h lim fits = ground arith

-- On a lease with a token limit and a window that has started: a reservation of some tokens is
-- refused exactly when it would pass the limit, and then costs nothing; one that is made stays
-- within the limit and is added to the window's count.
pub reserve_tokens_bound :
    (l : Lease) (tokens now : ℕ) (m : Manager)
    → 0 < tokens
    → 0 < l.tokens_per_minute
    → 0 < (current l.key_id now m).window_started
    → let s = current l.key_id now m in
      let r = reserve_tokens l tokens now m in
      let s' = current l.key_id now r.1 in
      ((r.2 ≡ none) ↔ (s.tokens + tokens ≤ l.tokens_per_minute))
      × (s'.tokens ≤ max l.tokens_per_minute s.tokens)
      × (s'.tokens
          ≡ (if ltb l.tokens_per_minute (s.tokens + tokens) then s.tokens else s.tokens + tokens))
reserve_tokens_bound l tokens now m h lim started = elim (reserve-cases l tokens now m) [
  | inl (ignored, _) ↦ absurd (ground arith)
  | inr (inl (over, q)) ↦
      rw
        (
          q,
          current-insert l.key_id now (current l.key_id now m) m started
              (current_open l.key_id now m),
        )
        (ground arith)
  | inr (inr (fits, q)) ↦
      rw
        (
          q,
          current-insert l.key_id now
              (record (current l.key_id now m) {
                tokens = (current l.key_id now m).tokens + tokens;
              })
              m started (current_open l.key_id now m),
        )
        (ground arith)
]

-- Reconciling on a stored state whose window is not over.
reconcile-insert :
    (l : Lease) (key : Text) (s : AdmissionState) (actual later : ℕ) (m : Manager)
    → l.key_id ≡ key
    → 0 < l.tokens_per_minute
    → l.tokens_finalized ≡ false
    → 0 < s.window_started
    → later < s.window_started + minute
    → (current key later (reconcile_tokens l actual later (insert key s m)).1).tokens
      ≡ s.tokens + actual - reserved_in l s.window_started
reconcile-insert l key s actual later m same lim fin started open_window =
    subst
      (λ k.
        (current k later (reconcile_tokens l actual later (insert k s m)).1).tokens
        ≡ s.tokens + actual - reserved_in l s.window_started)
      same
      (elim (reconcile-cases l actual later (insert l.key_id s m)) [
        | inl (ignored, _) ↦ absurd (ground arith)
        | inr (_, q) ↦
            rw (q, kept)
              (ap (λ (t : AdmissionState). t.tokens)
                (current-insert l.key_id later paid _ started open_window))
      ])
  where
    kept : current l.key_id later (insert l.key_id s m) ≡ s
    kept = current-insert l.key_id later s m started open_window

    paid : AdmissionState
    paid = record s { tokens = s.tokens + actual - reserved_in l s.window_started }

-- A request's tokens are counted once: if a reservation fits at `now` and the lease, which is not
-- reconciled yet, is reconciled before that window ends, the reservation is taken back, so that
-- the actual tokens are what remains counted. Earlier reservations of the lease in that window are
-- taken back with it.
pub reconcile-reserve :
    (l : Lease) (tokens actual now later : ℕ) (m : Manager)
    → 0 < tokens
    → 0 < l.tokens_per_minute
    → l.tokens_finalized ≡ false
    → 0 < (current l.key_id now m).window_started
    → (current l.key_id now m).tokens + tokens ≤ l.tokens_per_minute
    → later < (current l.key_id now m).window_started + minute
    → let s = current l.key_id now m in
      let r = reserve_tokens l tokens now m in
      let q = reconcile_tokens r.0 actual later r.1 in
      (current l.key_id later q.1).tokens ≡ s.tokens + actual - reserved_in l s.window_started
reconcile-reserve l tokens actual now later m h lim fin started fits open_window =
    let s = current l.key_id now m in
    let l' = add_reservation l s.window_started tokens in
    let (key, _, fin', lim') = add_reservation_keeps l s.window_started tokens in
    rw (reserve_accepts l tokens now m h lim fits) (
      reconcile-insert l' l.key_id (record s { tokens = s.tokens + tokens }) actual later m key
        (omega (arith, lim, lim')) (fin' ∙ fin) started open_window
      ∙ omega (arith, reserved_in-add_reservation l s.window_started tokens started))

-- A lease that is released again frees no second slot.
pub release-release :
    (l : Lease) (now later : ℕ) (m : Manager) → let r = release l now m in release r.0 later r.1 ≡ r
unfolding release
release-release l now later m = ground arith

-- The Retry-After header of a limit error is its wait in whole seconds, rounded up, and never 0.
pub retry_after_seconds-limit_error :
    (reason : Reason) (wait : ℕ)
    → (k : ℕ) × (retry_after_seconds (admission_limit_error reason wait) ≡ some k)
      × (1 ≤ k)
      × (wait ≤ k * second)
      × (k * second < max wait second + second)
unfolding retry_after_seconds admission_limit_error
retry_after_seconds-limit_error reason wait = (
  (max wait second + second - 1) / second,
  ground arith,
  ground arith,
  ground arith,
  ground arith,
)
