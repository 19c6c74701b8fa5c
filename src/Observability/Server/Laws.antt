-- ===== src/Observability/Server/Laws.antt =====
-- What the endpoints of internal/observability answer over the life of a server.
use incuse.Base.{
  ℕ, ◌≡◌, refl, sym, ◌↔◌, Text, Bool, true, false, ◌||◌, Result, ok, err, List, [], ◌∷◌, arith,
}
use incuse.Observability.Server.{
  Server, new_server, mark_healthy, mark_ready, set_addr, healthz, readyz, run, Ending,
}

-- What the program does to a server between two requests.
pub data Op : Type 0 where
  marks_healthy marks_ready : Op
  runs : Result Text → Ending → Op

unfoldable pub apply : Op → Server → Server
unfolding mark_healthy mark_ready run
apply marks_healthy s = mark_healthy s
apply marks_ready s = mark_ready s
apply (runs bound ending) s = (run bound ending s).0

unfoldable pub apply_all : List Op → Server → Server
unfolding apply
apply_all [] s = s
apply_all (o ∷ os) s = apply_all os (apply o s)

abbrev pub is_healthy_mark : Op → Bool
is_healthy_mark marks_healthy = true
is_healthy_mark _ = false

abbrev pub is_ready_mark : Op → Bool
is_ready_mark marks_ready = true
is_ready_mark _ = false

abbrev pub any_of : (Op → Bool) → List Op → Bool
any_of p [] = false
any_of p (o ∷ os) = p o || any_of p os

switches :
    (os : List Op) (s : Server)
    → ((apply_all os s).healthy ≡ s.healthy || any_of is_healthy_mark os)
      × ((apply_all os s).ready ≡ s.ready || any_of is_ready_mark os)
unfolding apply_all
switches [] s = ground arith
switches (marks_healthy ∷ os) s = ground (arith, switches os (mark_healthy s))
switches (marks_ready ∷ os) s = ground (arith, switches os (mark_ready s))
switches (runs (ok a) e ∷ os) s = ground (arith, switches os (set_addr a s))
switches (runs (err a) e ∷ os) s = ground (arith, switches os s)

-- The answer of an endpoint whose switch is on or off.
abbrev pub Tells : Bool → ℕ → Type 0
Tells on status = ((status ≡ 200) ↔ (on ≡ true)) × ((status ≡ 503) ↔ (on ≡ false))

switch-Tells :
    (status : ℕ) (switch on : Bool)
    → switch ≡ on
    → (switch ≡ true → status ≡ 200)
    → (switch ≡ false → status ≡ 503)
    → Tells on status
switch-Tells status true on q up down = ((λ e. sym q, λ e. up refl), (λ e. ground arith, λ e. cc))
switch-Tells status false on q up down =
    ((λ e. ground arith, λ e. cc), (λ e. sym q, λ e. down refl))

-- Over the whole life of a new server, runs and restarts included, `/healthz` answers 200 exactly
-- once MarkHealthy has been called and `/readyz` exactly once MarkReady has, and 503 before.
pub endpoints_lem :
    (addr : Text) (os : List Op)
    → Tells (any_of is_healthy_mark os) (healthz (apply_all os (new_server addr))).status
      × Tells (any_of is_ready_mark os) (readyz (apply_all os (new_server addr))).status
unfolding healthz readyz new_server
endpoints_lem addr os =
    let s : Server = apply_all os (new_server addr) in
    let (h, r) = switches os (new_server addr) in
    (
      switch-Tells (healthz s).status s.healthy _ h (λ e. ground arith) (λ e. ground arith),
      switch-Tells (readyz s).status s.ready _ r (λ e. ground arith) (λ e. ground arith),
    )
