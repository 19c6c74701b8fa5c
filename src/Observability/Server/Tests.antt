-- ===== src/Observability/Server/Tests.antt =====
-- The theorems of internal/observability/server.go at concrete runs.
use incuse.Base.{◌≡◌, refl, codes, text_eq, err, some, [], ◌∷◌}
use incuse.Observability.Server.{new_server, healthz, readyz, route, context_done, server_closed}
use incuse.Observability.Server.Laws.{
  marks_healthy, runs, apply_all, Tells, any_of, is_healthy_mark, is_ready_mark, endpoints_lem,
}

endpoints_lem_example :
    Tells
      (any_of is_healthy_mark
        (marks_healthy ∷ runs (err (codes "in use")) (context_done server_closed) ∷ []))
      (healthz (
        apply_all
          (marks_healthy ∷ runs (err (codes "in use")) (context_done server_closed) ∷ [])
          (new_server (codes ":9")))).status
    × Tells
        (any_of is_ready_mark
          (marks_healthy ∷ runs (err (codes "in use")) (context_done server_closed) ∷ []))
        (readyz (
          apply_all
            (marks_healthy ∷ runs (err (codes "in use")) (context_done server_closed) ∷ [])
            (new_server (codes ":9")))).status
endpoints_lem_example =
    endpoints_lem (codes ":9")
      (marks_healthy ∷ runs (err (codes "in use")) (context_done server_closed) ∷ [])

route_test : route (codes "/readyz") ≡ some readyz
unfolding route text_eq
route_test = refl
