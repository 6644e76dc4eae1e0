-- ===== src/Grpc/Laws.antt =====
-- The codes' classes, and the chain as a fold.
use protoc_gen_apigw.Grpc.{
  other_code, data_loss, internal, unknown, deadline_exceeded, unavailable, unimplemented, canceled,
  resource_exhausted, aborted, already_exists, not_found, permission_denied, unauthenticated,
  out_of_range, failed_precondition, invalid_argument, call_at, ok_code, UnaryHandler, Code,
  UnaryServerInterceptor, chain_unary_interceptors, get_chain_unary_handler, http_status_from_code,
}
use protoc_gen_apigw.Base.Text.{codes}
use protoc_gen_apigw.Base.Outcome.{panic, Outcome}
use protoc_gen_apigw.Base.{
  ◌∙◌, get_elem?-append, false, ◌==◌, append_assoc, sym, ◌+◌, zero, length-append, ap, arith, suc,
  refl, some, ◌<◌, ◌⊎◌, [], length, ℕ, ◌↔◌, ◌∷◌, ◌++◌, ◌≡◌, get_elem?, List,
}
use mathlib.Core.Path.{fun_ext}

-- The status of a code, by the codes that each status stands for.
abbrev pub IsReported : Code → Type 0
IsReported c =
    ((http_status_from_code c ≡ 200) ↔ (c ≡ ok_code))
    × ((http_status_from_code c ≡ 400)
        ↔ ((c ≡ invalid_argument) ⊎ (c ≡ failed_precondition) ⊎ (c ≡ out_of_range)))
    × ((http_status_from_code c ≡ 401) ↔ (c ≡ unauthenticated))
    × ((http_status_from_code c ≡ 403) ↔ (c ≡ permission_denied))
    × ((http_status_from_code c ≡ 404) ↔ (c ≡ not_found))
    × ((http_status_from_code c ≡ 409) ↔ ((c ≡ already_exists) ⊎ (c ≡ aborted)))
    × ((http_status_from_code c ≡ 429) ↔ (c ≡ resource_exhausted))
    × ((http_status_from_code c ≡ 499) ↔ (c ≡ canceled))
    × ((http_status_from_code c ≡ 501) ↔ (c ≡ unimplemented))
    × ((http_status_from_code c ≡ 503) ↔ (c ≡ unavailable))
    × ((http_status_from_code c ≡ 504) ↔ (c ≡ deadline_exceeded))
    × ((http_status_from_code c ≡ 500)
        ↔ ((c ≡ unknown) ⊎ (c ≡ internal) ⊎ (c ≡ data_loss) ⊎ ((n : ℕ) × (c ≡ other_code n))))

-- The code OK and no other is reported as 200. By the other statuses: 400 stands for invalid
-- arguments, failed preconditions and values out of range, 409 for what exists already and for an
-- aborted call, 401, 403, 404, 429, 499, 501, 503 and 504 each for the one code of that meaning, and
-- 500 for all codes that are left, unknown numbers included.
pub http_status_classes : (c : Code) → IsReported c
unfolding http_status_from_code
http_status_classes _ = ground arith

module _ {Req Res : Type 0} where
  -- The interceptors wrapped round the handler, the first one outermost.
  abbrev pub wrap : List (UnaryServerInterceptor Req Res) → UnaryHandler Req Res → Req → Outcome Res
  wrap [] handler = handler
  wrap (i ∷ is) handler = λ req. i req (wrap is handler)

  call_at_found :
      (is : List (UnaryServerInterceptor Req Res)) (k : ℕ) (req : Req) (h : UnaryHandler Req Res)
      (i : UnaryServerInterceptor Req Res)
      → get_elem? is k ≡ some i
      → call_at is k req h ≡ i req h
  unfolding call_at
  call_at_found is k req h i found = rw (found, call_at)

  chain-wrap :
      (before : List (UnaryServerInterceptor Req Res)) (i : UnaryServerInterceptor Req Res)
      (is : List (UnaryServerInterceptor Req Res)) (final : UnaryHandler Req Res) (fuel : ℕ)
      → length is < fuel
      → get_chain_unary_handler fuel (before ++ i ∷ is) (length before) final ≡ wrap is final
  unfolding get_chain_unary_handler
  chain-wrap before i is final zero h = elim h [ ]
  chain-wrap before i [] final (suc fuel) h =
      fun_ext λ req. ground (arith, length-append before (i ∷ []))
  chain-wrap before i (j ∷ is) final (suc fuel) h = fun_ext λ req.
      let at : length before + 1 ≡ length (before ++ i ∷ []) =
        omega (arith, length-append before (i ∷ [])) in
      let regroup : before ++ i ∷ j ∷ is ≡ (before ++ i ∷ []) ++ j ∷ is =
        sym (append_assoc before (i ∷ []) (j ∷ is)) in
      let more : (length before + 1 == length (before ++ i ∷ j ∷ is)) ≡ false =
        ground (arith, length-append before (i ∷ j ∷ is)) in
      let found : get_elem? (before ++ i ∷ j ∷ is) (length before + 1) ≡ some j =
        rw (at, regroup) (get_elem?-append (before ++ i ∷ []) is j) in
      let rest : get_chain_unary_handler fuel (before ++ i ∷ j ∷ is) (length before + 1) final
          ≡ wrap is final =
        rw (at, regroup) (chain-wrap (before ++ i ∷ []) j is final fuel (omega arith)) in
      rw more
        (call_at_found (before ++ i ∷ j ∷ is) (length before + 1) req _ j found ∙ ap (j req) rest)

  -- What a chain comes to: a panic without interceptors, and otherwise the interceptors wrapped
  -- round the handler.
  abbrev pub chained :
      List (UnaryServerInterceptor Req Res) → UnaryHandler Req Res → Req → Outcome Res
  chained [] handler req = panic (codes "index out of range")
  chained (i ∷ is) handler req = wrap (i ∷ is) handler req

  -- A chain of at least one interceptor calls each interceptor in order, the first one outermost,
  -- and the handler last, and never indexes out of range; a chain of none panics, as it does index
  -- out of range.
  pub chain_unary_interceptors-wrap :
      (is : List (UnaryServerInterceptor Req Res)) (req : Req) (handler : UnaryHandler Req Res)
      → chain_unary_interceptors is req handler ≡ chained is handler req
  unfolding chain_unary_interceptors
  chain_unary_interceptors-wrap [] req handler = refl
  chain_unary_interceptors-wrap (i ∷ is) req handler =
      ap (i req) (chain-wrap [] i is handler (suc (length is)) (omega arith))
