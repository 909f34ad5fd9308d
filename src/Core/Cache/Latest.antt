-- ===== src/Core/Cache/Latest.antt =====
-- What is read from a pin after a write: the value, if it is not too old.
use nazh.Base.{
  ◌+◌, ◌*◌, ◌<◌, ◌↔◌, ℕ, ◌≡◌, refl, true, false, inl, inr, Option, none, some, String, str_eq,
  lookup, insert, contains_key, lookup-insert, if◌then◌else◌, arith, eq_refl, eq_iff, ◌∙◌,
  Option-cases, Bool-cases,
}
use mathlib.Core.Path.{subst}
use nazh.Json.{JsonNumber}
use nazh.Connections.Types.{DateTime}
use nazh.Core.Cache.{CachedOutput, OutputCache, prepare_slot, expired, read, write}

module _ (J : JsonNumber) where
  open J use {Number}

  abbrev pub unless_expired :
      Option ℕ → DateTime → CachedOutput Number → Option (CachedOutput Number)
  unless_expired ttl_ms now output = if expired ttl_ms now output then none else some output

  written :
      (pin other : String) (output : CachedOutput Number) (ttl_ms : Option ℕ) (now : DateTime)
      (slots : OutputCache Number)
      → contains_key pin slots ≡ true
      → read other ttl_ms now (write J pin output slots).1 ≡ (
          if str_eq pin other
          then unless_expired ttl_ms now output
          else read other ttl_ms now slots)
  unfolding read write contains_key
  written pin other output ttl_ms now slots there = elim (Option-cases (lookup pin slots)) [
    | inl e ↦ absurd (ground (arith, there, e))
    | inr (slot, e) ↦
        rw (e, write)
          (rw (lookup-insert pin other (some output) slots) (elim (Bool-cases (str_eq pin other)) [
            | inl same ↦ rw same refl
            | inr differ ↦ rw differ refl
          ]))
  ]

  prepared :
      (pin other : String) (ttl_ms : Option ℕ) (now : DateTime) (slots : OutputCache Number)
      → (contains_key pin (prepare_slot pin slots) ≡ true)
        × (read other ttl_ms now (prepare_slot pin slots) ≡ read other ttl_ms now slots)
  unfolding read prepare_slot contains_key
  prepared pin other ttl_ms now slots = elim (Option-cases (lookup pin slots)) [
    | inl e ↦
        let absent : contains_key pin slots ≡ false = rw (e, contains_key) refl in
        let ready : prepare_slot pin slots ≡ insert pin none slots =
          rw (absent, prepare_slot) refl in
        rw ready (
          rw (lookup-insert pin pin none slots, contains_key) (rw (eq_refl pin) refl),
          rw (lookup-insert pin other none slots, read)
              (elim (Bool-cases (str_eq pin other)) [
                | inr differ ↦ rw differ refl
                | inl same ↦
                    let there : pin ≡ other = ground (arith, eq_iff pin other, same) in
                    let empty : lookup other slots ≡ none =
                      subst (λ k. lookup k slots ≡ none) there e in
                    rw same (rw empty refl)
              ]),
        )
    | inr (slot, e) ↦
        let present : contains_key pin slots ≡ true = rw (e, contains_key) refl in
        let ready : prepare_slot pin slots ≡ slots = rw (present, prepare_slot) refl in
        rw ready (present, refl)
  ]

  -- the time of the output is less than a millisecond more than the limit away, before or after `now`
  abbrev pub Fresh : Option ℕ → DateTime → DateTime → Type 0
  Fresh none now at = Unit
  Fresh (some ttl) now at = (now < at + (ttl + 1) * 1000000) × (at < now + (ttl + 1) * 1000000)

  expired_iff :
      (ttl_ms : Option ℕ) (now : DateTime) (output : CachedOutput Number)
      → (expired ttl_ms now output ≡ false) ↔ Fresh ttl_ms now output.produced_at
  expired_iff none now output = (λ _. tt, λ _. refl)
  expired_iff (some ttl) now output =
      (λ e. (ground (arith, e), ground (arith, e)), λ h. ground (arith, h.0, h.1))

  read_back :
      (pin : String) (output : CachedOutput Number) (ttl_ms : Option ℕ) (now : DateTime)
      (slots : OutputCache Number)
      → read pin ttl_ms now (write J pin output (prepare_slot pin slots)).1
        ≡ unless_expired ttl_ms now output
  read_back pin output ttl_ms now slots =
      written pin pin output ttl_ms now (prepare_slot pin slots)
        (prepared pin pin ttl_ms now slots).0
      ∙ rw (eq_refl pin) refl

  -- Once the slot of a pin is prepared, an output that is written to it is read from it exactly if there is no limit of age
  -- or the output's time is less than one millisecond more than the limit away from the time of
  -- the read, and otherwise nothing is read; a read of any other pin gives what it gave before.
  pub read-write :
      (pin other : String) (output : CachedOutput Number) (ttl_ms : Option ℕ) (now : DateTime)
      (slots : OutputCache Number)
      → str_eq pin other ≡ false
      → let after = (write J pin output (prepare_slot pin slots)).1 in
        ((read pin ttl_ms now after ≡ some output) ↔ Fresh ttl_ms now output.produced_at)
        × ((read pin ttl_ms now after ≡ none) ↔ ¬ Fresh ttl_ms now output.produced_at)
        × (read other ttl_ms now after ≡ read other ttl_ms now slots)
  read-write pin other output ttl_ms now slots differ =
      let (there, kept) = prepared pin other ttl_ms now slots in
      let found = read_back pin output ttl_ms now slots in
      let fresh = expired_iff ttl_ms now output in
      let same : read other ttl_ms now (write J pin output (prepare_slot pin slots)).1
          ≡ read other ttl_ms now slots =
        written pin other output ttl_ms now (prepare_slot pin slots) there ∙ rw differ kept in
      elim (Bool-cases (expired ttl_ms now output)) [
        | inl old ↦
            let gone : read pin ttl_ms now (write J pin output (prepare_slot pin slots)).1 ≡ none =
              found ∙ rw old refl in
            (
              (λ e. absurd (ground (arith, gone, e)), λ h. absurd (ground (arith, fresh.1 h, old))),
              (λ _ h. absurd (ground (arith, fresh.1 h, old)), λ _. gone),
              same,
            )
        | inr young ↦
            let there : read pin ttl_ms now (write J pin output (prepare_slot pin slots)).1
                ≡ some output =
              found ∙ rw young refl in
            (
              (λ _. fresh.0 young, λ _. there),
              (λ e. absurd (ground (arith, there, e)), λ no. absurd (no (fresh.0 young))),
              same,
            )
      ]
