-- ===== src/Grpc/Tests.antt =====
-- Interceptors that record their order, and the theorems at them.
use protoc_gen_apigw.Grpc.Laws.{
  IsReported, chained, http_status_classes, chain_unary_interceptors-wrap,
}
use protoc_gen_apigw.Base.{refl, ◌≡◌, List, [], ◌∷◌, ℕ}
use protoc_gen_apigw.Grpc.{
  get_chain_unary_handler, not_found, UnaryHandler, UnaryServerInterceptor,
  chain_unary_interceptors,
}
use protoc_gen_apigw.Base.Outcome.{panic, ok, ◌>>=◌, err}
use protoc_gen_apigw.Base.Text.{codes}

abbrev Interceptor : Type 0
Interceptor = UnaryServerInterceptor (List ℕ) (List ℕ)

-- Notes `n` in the request, and once more in the response.
abbrev noting : ℕ → Interceptor
noting n req handler = handler (n ∷ req) >>= λ res. ok (n ∷ res)

-- Refuses the request without calling the handler.
abbrev refusing : Interceptor
refusing req handler = err (codes "refused")

abbrev echo : UnaryHandler (List ℕ) (List ℕ)
echo req = ok req

chain_of_two : chain_unary_interceptors (noting 1 ∷ noting 2 ∷ []) [] echo ≡ ok (1 ∷ 2 ∷ 2 ∷ 1 ∷ [])
unfolding chain_unary_interceptors get_chain_unary_handler
chain_of_two = refl

refused_in_the_middle :
    chain_unary_interceptors (noting 1 ∷ refusing ∷ noting 2 ∷ []) [] echo ≡ err (codes "refused")
unfolding chain_unary_interceptors get_chain_unary_handler
refused_in_the_middle = refl

no_interceptor : chain_unary_interceptors [] [] echo ≡ panic (codes "index out of range")
unfolding chain_unary_interceptors
no_interceptor = refl

chain_unary_interceptors-wrap_example :
    chain_unary_interceptors (noting 1 ∷ noting 2 ∷ []) [] echo
    ≡ chained (noting 1 ∷ noting 2 ∷ []) echo []
chain_unary_interceptors-wrap_example =
    chain_unary_interceptors-wrap (noting 1 ∷ noting 2 ∷ []) [] echo

http_status_classes_example : IsReported not_found
http_status_classes_example = http_status_classes not_found
