-- ===== src/Gin/Registry/Laws.antt =====
-- What `RegisterService` registers.
use protoc_gen_apigw.Base.{
  Option-cases, append-nil, ◌≢◌, Bool, some, Bool-cases, refl, append_assoc, inr, none, false, inl,
  ◌∙◌, ◌⊎◌, All, true, ◌++◌, ◌∷◌, [], ◌≡◌, sym, Option, List,
}
use protoc_gen_apigw.Gin.Registry.{
  handle, or_panic, register_methods, register_service, Registration, MethodDesc,
}
use mathlib.Core.Path.{subst}
use protoc_gen_apigw.Base.Outcome.{ok-injective, exhausted, err, panic, ok, Outcome}
use protoc_gen_apigw.Base.Text.{slash, split, join, Text, codes, has_prefix}
use protoc_gen_apigw.Route.{parse_tokens, parse_route}
use protoc_gen_apigw.Gin.{route_parts, clean_rooted, convert_route}

-- A route either starts with a slash and is converted, or does not and is refused.
convert_route-cases :
    (r : Text)
    → ((has_prefix r (codes "/") ≡ true) × (s : Text) × (convert_route r ≡ ok s))
      ⊎ ((has_prefix r (codes "/") ≡ false) × (e : Text) × (convert_route r ≡ err e))
unfolding convert_route parse_route
convert_route-cases r =
    let s =
      clean_rooted (join (codes "/" ∷ route_parts (parse_tokens (split r slash) 0) 0) slash) in
    elim (Bool-cases (has_prefix r (codes "/"))) [
      | inl rooted ↦ inl (rooted, s, rw rooted refl)
      | inr other ↦ inr (other, codes "apigw_v1: invalid route: must start with '/'", rw other refl)
    ]

-- The registrations are those of the methods, one for each and in their order: under the method's
-- verb and name, and under its route as `ConvertRoute` gives it.
abbrev pub Registers : List MethodDesc → List Registration → Type 0
Registers [] [] = Unit
Registers (m ∷ ms) (r ∷ rs) =
    (r.method ≡ m.method)
    × (r.name ≡ m.name)
    × (convert_route m.route ≡ ok r.route)
    × Registers ms rs
Registers _ _ = ⊥

abbrev pub IsRooted : MethodDesc → Type 0
IsRooted m = has_prefix m.route (codes "/") ≡ true

module _ (refuses : List Registration → Registration → Option Text) where
  -- The router takes each registration, after those before it.
  abbrev pub Accepted : List Registration → List Registration → Type 0
  Accepted before [] = Unit
  Accepted before (r ∷ rs) = (refuses before r ≡ none) × Accepted (before ++ r ∷ []) rs

  -- The methods can be registered: every route is converted, and the router takes what results.
  abbrev pub Registerable : List MethodDesc → List Registration → Type 0
  Registerable ms before =
      All IsRooted ms × ((rs : List Registration) → Registers ms rs → Accepted before rs)

  -- What registering methods comes to, after what was registered before.
  abbrev Extends : List MethodDesc → List Registration → Outcome (List Registration) → Type 0
  Extends ms before (ok all) =
      Registerable ms before × (rs : List Registration) × (all ≡ before ++ rs) × Registers ms rs
  Extends ms before (panic e) = ¬ Registerable ms before
  Extends ms before _ = ⊥

  -- The registration of a method is determined by it.
  same_registration :
      (m : MethodDesc) (r s : Registration)
      → (r.method ≡ m.method) × (r.name ≡ m.name) × (convert_route m.route ≡ ok r.route)
      → (s.method ≡ m.method) × (s.name ≡ m.name) × (convert_route m.route ≡ ok s.route)
      → r ≡ s
  same_registration m r s (verb, name, route) (verb', name', route') =
      let same = ok-injective (sym route ∙ route') in cc

  head-Accepted :
      (m : MethodDesc) (ms : List MethodDesc) (r : Registration) (before : List Registration)
      → (r.method ≡ m.method) × (r.name ≡ m.name) × (convert_route m.route ≡ ok r.route)
      → refuses before r ≡ none
      → ((rs : List Registration) → Registers ms rs → Accepted (before ++ r ∷ []) rs)
      → (rs : List Registration) → Registers (m ∷ ms) rs
      → Accepted before rs
  head-Accepted m ms r before own free later [] h = absurd h
  head-Accepted m ms r before own free later (s ∷ rs) (verb, name, route, h) =
      subst (λ t. (refuses before t ≡ none) × Accepted (before ++ t ∷ []) rs)
        (same_registration m r s own (verb, name, route)) (free, later rs h)

  Extends-cons :
      (m : MethodDesc) (ms : List MethodDesc) (r : Registration) (before : List Registration)
      (out : Outcome (List Registration))
      → IsRooted m
      → (r.method ≡ m.method) × (r.name ≡ m.name) × (convert_route m.route ≡ ok r.route)
      → refuses before r ≡ none
      → Extends ms (before ++ r ∷ []) out
      → Extends (m ∷ ms) before out
  Extends-cons m ms r before (ok all) rooted (verb, name, converted) free
        ((rest, later), rs, e, h) =
      (
        ((rooted, rest), head-Accepted m ms r before (verb, name, converted) free later),
        r ∷ rs,
        e ∙ append_assoc before (r ∷ []) rs,
        (verb, name, converted, h),
      )
  Extends-cons m ms r before (panic e) rooted (verb, name, converted) free h =
      λ ((_, rest), all). h (rest, λ rs own. (all (r ∷ rs) (verb, name, converted, own)).1)
  Extends-cons m ms r before (err e) rooted own free h = h
  Extends-cons m ms r before exhausted rooted own free h = h

  -- Methods whose routes start with a slash have registrations.
  registrations :
      (ms : List MethodDesc) → All IsRooted ms → (rs : List Registration) × Registers ms rs
  registrations [] h = ([], tt)
  registrations (m ∷ ms) (rooted, h) = elim (convert_route-cases m.route) [
    | inl (_, s, e) ↦
        let (rs, own) = registrations ms h in
        (record { method = m.method; route = s; name = m.name } ∷ rs, (refl, refl, e, own))
    | inr (other, text, e) ↦ cc
  ]

  -- A registration that the router refuses.
  refused :
      (m : MethodDesc) (ms : List MethodDesc) (s e : Text) (before : List Registration)
      → convert_route m.route ≡ ok s
      → refuses before (record { method = m.method; route = s; name = m.name }) ≡ some e
      → ¬ Registerable (m ∷ ms) before
  refused m ms s e before converted full = λ ((rooted, rest), all).
      let r : Registration = record { method = m.method; route = s; name = m.name } in
      let (rs, own) = registrations ms rest in
      let free = (all (r ∷ rs) (refl, refl, converted, own)).0 in cc

  Accepted-none :
      (before : List Registration) (rs : List Registration) → Registers [] rs → Accepted before rs
  Accepted-none before [] h = tt
  Accepted-none before (r ∷ rs) h = absurd h

  register_methods-Extends :
      (ms : List MethodDesc) (before : List Registration)
      → Extends ms before (register_methods refuses ms before)
  unfolding register_methods or_panic handle
  register_methods-Extends [] before = ((tt, Accepted-none before), [], sym (append-nil before), tt)
  register_methods-Extends (m ∷ ms) before = elim (convert_route-cases m.route) [
    | inl (rooted, s, e) ↦
        let r : Registration = record { method = m.method; route = s; name = m.name } in
        elim (Option-cases (refuses before r)) [
          | inl free ↦
              rw (e, free, handle)
                (Extends-cons m ms r before (register_methods refuses ms (before ++ r ∷ [])) rooted
                  (refl, refl, e) free (register_methods-Extends ms (before ++ r ∷ [])))
          | inr (text, full) ↦ rw (e, full, handle) (refused m ms s text before e full)
        ]
    | inr (other, text, e) ↦ rw e (λ ((rooted, rest), all). cc)
  ]

  -- What a call of `RegisterService` comes to.
  abbrev pub Registered : List MethodDesc → Option Bool → Outcome (List Registration) → Type 0
  Registered ms satisfies (ok rs) = (satisfies ≢ some false) × Registerable ms [] × Registers ms rs
  Registered ms satisfies (panic e) = (satisfies ≡ some false) ⊎ (¬ Registerable ms [])
  Registered ms satisfies _ = ⊥

  Extends-Registered :
      (ms : List MethodDesc) (satisfies : Option Bool) (out : Outcome (List Registration))
      → satisfies ≢ some false
      → Extends ms [] out
      → Registered ms satisfies out
  Extends-Registered ms satisfies (ok all) h (able, rs, e, own) = (h, able, rw e own)
  Extends-Registered ms satisfies (panic e) h bad = inr bad
  Extends-Registered ms satisfies (err e) h bad = bad
  Extends-Registered ms satisfies exhausted h bad = bad

  -- Whichever calls of `Handle` gin's router panics on, `RegisterService` registers each method of the
  -- service once and in order, under its verb and its converted route, if the implementation is nil or
  -- has the methods of the handler type, every route starts with a slash, and the router accepts each
  -- registration after those before it; it panics exactly where one of the three fails.
  pub register_service-Registered :
      (ms : List MethodDesc) (satisfies : Option Bool)
      → Registered ms satisfies (register_service refuses ms satisfies)
  unfolding register_service
  register_service-Registered ms none =
      Extends-Registered ms none _ (λ e. cc) (register_methods-Extends ms [])
  register_service-Registered ms (some true) =
      Extends-Registered ms (some true) _ (λ e. cc) (register_methods-Extends ms [])
  register_service-Registered ms (some false) = inl refl
