-- ===== src/Connections/Manager/Acquire/Window.antt =====
-- The window of attempts of `register_attempt` (manager/mod.rs) against the history of all attempts
-- that were let through.
use nazh.Base.{
  if_elim, ◌-◌, ◌≤◌, ◌<◌, none, some, List, [], ◌∷◌, ◌++◌, ◌≡◌, refl, ◌∙◌, inl, inr, arith, leb,
  ltb, length, length-append, if◌then◌else◌, All, All-append, Bool-cases,
}
use native.Mathlib.Nat.{le_refl}
use nazh.Connections.Types.{DateTime, duration_ms}
use nazh.Connections.Policy.{ConnectionGovernancePolicy}
use nazh.Connections.Manager.Acquire.{expire, register_attempt}

-- the entries of a history that are not older than the cutoff
unfoldable pub recent : DateTime → List DateTime → List DateTime
recent cutoff [] = []
recent cutoff (t ∷ ts) = let rest = recent cutoff ts in if ltb t cutoff then rest else t ∷ rest

abbrev pub Ascending : List DateTime → Type 0
Ascending [] = Unit
Ascending (t ∷ ts) = All (λ u. t ≤ u) ts × Ascending ts

recent-All : (c : DateTime) (ts : List DateTime) → All (λ u. c ≤ u) ts → recent c ts ≡ ts
unfolding recent
recent-All c [] h = refl
recent-All c (t ∷ ts) h = ground (arith, recent-All c ts h.1)

All-le : (a b : DateTime) (ts : List DateTime) → a ≤ b → All (λ u. b ≤ u) ts → All (λ u. a ≤ u) ts
All-le a b [] h k = tt
All-le a b (t ∷ ts) h k = (omega arith, All-le a b ts h k.1)

-- the loop that pops from the front keeps exactly the recent entries
pub expire-recent : (c : DateTime) (ts : List DateTime) → Ascending ts → expire c ts ≡ recent c ts
unfolding expire recent
expire-recent c [] h = refl
expire-recent c (t ∷ ts) h = elim (Bool-cases (ltb t c)) [
  | inl e ↦ simp e (expire-recent c ts h.1)
  | inr e ↦ simp (e, recent-All c ts (All-le c t ts (ground arith) h.0))
]

recent-recent : (c d : DateTime) (ts : List DateTime) → c ≤ d → recent d (recent c ts) ≡ recent d ts
unfolding recent
recent-recent c d [] h = refl
recent-recent c d (t ∷ ts) h = ground (arith, recent-recent c d ts h)

All-recent :
    (a c : DateTime) (ts : List DateTime) → All (λ u. a ≤ u) ts → All (λ u. a ≤ u) (recent c ts)
unfolding recent
All-recent a c [] h = tt
All-recent a c (t ∷ ts) h =
    if_elim (All (λ u. a ≤ u)) (ltb t c) (λ _. All-recent a c ts h.1)
      (λ _. (h.0, All-recent a c ts h.1))

Ascending-recent : (c : DateTime) (ts : List DateTime) → Ascending ts → Ascending (recent c ts)
unfolding recent
Ascending-recent c [] h = tt
Ascending-recent c (t ∷ ts) h =
    if_elim Ascending (ltb t c) (λ _. Ascending-recent c ts h.1)
      (λ _. (All-recent t c ts h.0, Ascending-recent c ts h.1))

recent-append :
    (c : DateTime) (ts us : List DateTime) → recent c (ts ++ us) ≡ recent c ts ++ recent c us
unfolding recent
recent-append c [] us = refl
recent-append c (t ∷ ts) us = ground (arith, recent-append c ts us)

Ascending-append :
    (ts : List DateTime) (t : DateTime)
    → Ascending ts
    → All (λ u. u ≤ t) ts
    → Ascending (ts ++ t ∷ [])
Ascending-append [] t h k = (tt, tt)
Ascending-append (u ∷ ts) t h k =
    (All-append (λ v. u ≤ v) ts (t ∷ []) h.0 (k.0, tt), Ascending-append ts t h.1 k.1)

-- The window and the history of the attempts let through, after a run of attempts.
pub record Attempts : Type 0 where
  pub window : List DateTime
  pub granted : List DateTime

unfoldable pub attempt : ConnectionGovernancePolicy → Attempts → DateTime → Attempts
attempt p s now =
    let (refused, kept) = register_attempt p now s.window in
    record {
      window = kept;
      granted = elim refused [ none ↦ s.granted ++ now ∷ [] | some _ ↦ s.granted ];
    }

unfoldable pub attempt_all : ConnectionGovernancePolicy → Attempts → List DateTime → Attempts
attempt_all p s [] = s
attempt_all p s (t ∷ ts) = attempt_all p (attempt p s t) ts

module _ (p : ConnectionGovernancePolicy) where
  abbrev cutoff : DateTime → DateTime
  cutoff now = now - duration_ms p.rate_limit_window_ms

  -- what holds after the attempts up to a time
  record IsWindow (now : DateTime) (s : Attempts) : Type 0 where
    window : s.window ≡ recent (cutoff now) s.granted
    fits : length s.window ≤ p.rate_limit_max_attempts
    ascending : Ascending s.granted
    past : All (λ u. u ≤ now) s.granted

  All-ge : (a b : DateTime) (ts : List DateTime) → a ≤ b → All (λ u. u ≤ a) ts → All (λ u. u ≤ b) ts
  All-ge a b [] h k = tt
  All-ge a b (t ∷ ts) h k = (omega arith, All-ge a b ts h k.1)

  from_zero : (ts : List DateTime) → All (λ u. 0 ≤ u) ts
  from_zero [] = tt
  from_zero (t ∷ ts) = (omega arith, from_zero ts)

  length-expire : (c : DateTime) (ts : List DateTime) → length (expire c ts) ≤ length ts
  unfolding expire
  length-expire c [] = omega arith
  length-expire c (t ∷ ts) = ground (arith, length-expire c ts)

  expire_window :
      (before now : DateTime) (s : Attempts)
      → before ≤ now
      → IsWindow before s
      → expire (cutoff now) s.window ≡ recent (cutoff now) s.granted
  expire_window before now s later h =
      expire-recent (cutoff now) s.window
        (rw h.window (Ascending-recent (cutoff before) s.granted h.ascending))
      ∙ (rw h.window (recent-recent (cutoff before) (cutoff now) s.granted (omega arith)))

  -- the window that an attempt leaves is recent in the history that it leaves
  IsWindow-granted :
      (now : DateTime) (kept granted : List DateTime)
      → kept ≡ recent (cutoff now) granted
      → length kept < p.rate_limit_max_attempts
      → Ascending granted
      → All (λ u. u ≤ now) granted
      → IsWindow now (record { window = kept ++ now ∷ []; granted = granted ++ now ∷ [] })
  unfolding recent
  IsWindow-granted now kept granted e room asc past = record {
    window = rw (e, recent-append) (ground arith);
    fits = omega (arith, length-append kept (now ∷ []));
    ascending = Ascending-append granted now asc past;
    past = All-append (λ u. u ≤ now) granted (now ∷ []) past (le_refl now, tt);
  }

  attempt-IsWindow :
      (before now : DateTime) (s : Attempts)
      → before ≤ now
      → IsWindow before s
      → IsWindow now (attempt p s now)
  unfolding attempt register_attempt
  attempt-IsWindow before now s later h =
      let kept = expire (cutoff now) s.window in
      let e = expire_window before now s later h in
      let past = All-ge before now s.granted later h.past in
      elim (Bool-cases (leb p.rate_limit_max_attempts (length kept))) [
        | inl full ↦ simp full (record {
          window = e;
          fits = omega (arith, length-expire (cutoff now) s.window, h.fits);
          ascending = h.ascending;
          past = past;
        })
        | inr room ↦
            simp room (IsWindow-granted now kept s.granted e (ground arith) h.ascending past)
      ]

  attempt_all-IsWindow :
      (before : DateTime) (ts : List DateTime) (now : DateTime) (s : Attempts)
      → Ascending (before ∷ ts ++ now ∷ [])
      → IsWindow before s
      → IsWindow now (attempt_all p s (ts ++ now ∷ []))
  unfolding attempt_all
  attempt_all-IsWindow before [] now s asc h = attempt-IsWindow before now s asc.0.0 h
  attempt_all-IsWindow before (t ∷ ts) now s asc h =
      attempt_all-IsWindow t ts now (attempt p s t) asc.1 (attempt-IsWindow before t s asc.0.0 h)

  -- Attempts at ascending times, from an empty window: after the last one, at `now`, no more attempts
  -- were let through within the policy's window before `now` (it included) than the policy allows, and
  -- the window that the manager keeps is exactly those.
  pub granted_in_window_bounded :
      (ts : List DateTime) (now : DateTime)
      → Ascending (ts ++ now ∷ [])
      → let s = attempt_all p (record { window = []; granted = [] }) (ts ++ now ∷ []) in
        let cutoff = now - duration_ms p.rate_limit_window_ms in
        (length (recent cutoff s.granted) ≤ p.rate_limit_max_attempts)
        × (s.window ≡ recent cutoff s.granted)
  unfolding recent
  granted_in_window_bounded ts now asc =
      let h =
        attempt_all-IsWindow 0 ts now _ (from_zero (ts ++ now ∷ []), asc)
          (record { window = refl; fits = omega arith; ascending = tt; past = tt }) in
      (rw (← h.window) h.fits, h.window)
