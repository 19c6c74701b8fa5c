-- ===== src/Orchestrator/Reaper/Drift.antt =====
-- Which instances the drift sweep of internal/orchestrator/reaper.go stops and deletes, and that it
-- recognises every instance that the orchestrator launches.
use mathlib.Core.List.{Memᴰ}
use incuse.Base.{
  Text, codes, itoa, text_eq, eq_self, eq_false, ◌≢◌, contains, true, false, not, Option, none,
  some, ok, err, List, [], ◌∷◌, map, keep_if, All, ◌≡◌, refl, inl, inr, Bool-cases, arith,
}
use incuse.Base.Dict
use incuse.Base.Strings.Decimal.{itoa-injective}
use incuse.Incus.{Instance, LaunchRequest}
use incuse.Orchestrator.Launch.{
  LaunchInputs, build_launch_request, config_map, is_container, meta_managed, meta_scale_set_id,
}
use incuse.Orchestrator.Terminate.{destroy}
use incuse.Orchestrator.Reaper.{parallel_reap, config_value, is_orphan, reap_orphan, drift_sweep}
use incuse.Orchestrator.Program.{
  Config, Context, Action, Reply, Code, halt, act, fork, Proc, goroutine, names, incus_stop,
  incus_delete, incus_list,
}

-- What a goroutine has been told: the last listing of instances, and the names in the tracker, if
-- it has asked for them since.
pub record Seen : Type 0 where
  pub listed : List Instance
  pub known : Option (List Text)

abbrev pub seen_after : Seen → (a : Action) → Reply a → Seen
seen_after s (incus_list _ _) (ok is) = record { listed = is; known = none }
seen_after s (incus_list _ _) (err e) = s
seen_after s names r = record s { known = some r }
seen_after s _ _ = s

module _ (cfg : Config) where
  -- A listed instance of that name that carries the tags of this scale set and that the tracker did
  -- not know.
  pub record Orphaned (s : Seen) (name : Text) : Type 0 where
    pub instance_of : Instance
    pub is_listed : Memᴰ instance_of s.listed
    pub is_named : instance_of.name ≡ name
    pub managed : config_value meta_managed instance_of.config ≡ codes "true"
    pub ours : config_value meta_scale_set_id instance_of.config ≡ itoa cfg.scale_set_id
    pub names_read : List Text
    pub is_read : s.known ≡ some names_read
    pub unknown : contains names_read name ≡ false

  abbrev pub Allowed : Seen → Action → Type 0
  Allowed s (incus_stop _ name) = Orphaned s name
  Allowed s (incus_delete _ name) = Orphaned s name
  Allowed s _ = Unit

  -- On every path an instance is stopped or deleted only if it is an orphan by then.
  abbrev pub SparesOthers : Seen → Code → Type 0
  SparesOthers s halt = Unit
  SparesOthers s (act a k) = Allowed s a × ((r : Reply a) → SparesOthers (seen_after s a r) (k r))
  SparesOthers s (fork c k) = SparesOthers s c × SparesOthers s k

  is_orphan-Orphaned :
      (remote : List Instance) (known : List Text) (i : Instance)
      → Memᴰ i remote
      → is_orphan cfg known i ≡ true
      → Orphaned (record { listed = remote; known = some known }) i.name
  unfolding is_orphan
  is_orphan-Orphaned remote known i m h = record {
    names_read = known;
    is_read = refl;
    instance_of = i;
    is_listed = m;
    is_named = refl;
    managed = ground arith;
    ours = ground arith;
    unknown = ground arith;
  }

  abbrev Spares : Seen → Proc (Unit {0}) → Type 0
  Spares s m = (k : Unit {0} → Code) → SparesOthers s (k tt) → SparesOthers s (m k)

  orphans-Spares :
      (remote : List Instance) (known : List Text) (ctx : Context) (is : List Instance)
      → ((i : Instance) → Memᴰ i is → Memᴰ i remote)
      → All
          (Spares (record { listed = remote; known = some known }))
          (map (reap_orphan cfg ctx) (keep_if (is_orphan cfg known) is))
  unfolding reap_orphan destroy
  orphans-Spares remote known ctx [] sub = tt
  orphans-Spares remote known ctx (i ∷ is) sub =
      let rest = orphans-Spares remote known ctx is (λ j m. sub j (Memᴰ.tail m)) in
      elim (Bool-cases (is_orphan cfg known i)) [
        | inl h ↦
            let o = is_orphan-Orphaned remote known i (sub i (Memᴰ.head refl)) h in
            rw h ((λ k e. (tt, λ _. (o, λ _. (o, λ _. e)))), rest)
        | inr h ↦ rw h rest
      ]

  parallel_reap-Spares :
      (s : Seen) (ctx : Context) (works : List (Proc (Unit {0})))
      → All (Spares s) works
      → Spares s (parallel_reap ctx works)
  unfolding parallel_reap
  parallel_reap-Spares s ctx [] all k e = (tt, λ _. e)
  parallel_reap-Spares s ctx (w ∷ ws) (sw, all) k e = (
    tt,
    elim [
      | true ↦ (tt, λ _. (sw _ (tt, λ _. (tt, λ _. tt)), parallel_reap-Spares s ctx ws all k e))
      | false ↦ (tt, λ _. e)
    ],
  )

  abbrev nothing_seen : Seen
  nothing_seen = record { listed = []; known = none }

  -- On every path of a drift sweep, whatever the host lists and the tracker holds, the only instances
  -- that are stopped or deleted are listed ones that carry the tags of this very scale set and whose
  -- names the tracker, read after the listing, does not know.
  pub drift_sweep_targets :
      (ctx : Context) → SparesOthers nothing_seen (goroutine (drift_sweep cfg ctx))
  unfolding drift_sweep
  drift_sweep_targets ctx = (
    tt,
    elim [
      | err e ↦ tt
      | ok remote ↦ (
        tt,
        λ known.
            parallel_reap-Spares _ ctx _ (orphans-Spares remote known ctx remote (λ i m. m)) _ tt,
      )
    ],
  )

-- The tags of a request are those that the sweep looks for.
config_map-tags :
    (i : LaunchInputs)
    → (config_value meta_managed (config_map i) ≡ codes "true")
      × (config_value meta_scale_set_id (config_map i) ≡ itoa i.scale_set_id)
unfolding config_map config_value Dict.lookup Dict.insert text_eq
config_map-tags i = elim (Bool-cases (is_container i.runner_cfg)) [
  | inl c ↦ elim (Bool-cases i.runner_cfg.privileged) [
    | inl p ↦ rw (c, p) (refl, refl)
    | inr p ↦ rw (c, p) (refl, refl)
  ]
  | inr c ↦ rw c (refl, refl)
]

module _ (cfg : Config) (i : LaunchInputs) (inst : Instance) where
  abbrev request : LaunchRequest
  request = build_launch_request i

  -- The host reports the request's two tags and its name.
  abbrev pub Launched : Type 0
  Launched =
      (inst.name ≡ request.name)
      × (Dict.lookup meta_managed inst.config ≡ Dict.lookup meta_managed request.config)
      × (Dict.lookup meta_scale_set_id inst.config ≡ Dict.lookup meta_scale_set_id request.config)

  launched-tags :
      Launched
      → (config_value meta_managed inst.config ≡ codes "true")
        × (config_value meta_scale_set_id inst.config ≡ itoa i.scale_set_id)
  unfolding config_value build_launch_request
  launched-tags (n, m, s) =
      let (tm, ts) = config_map-tags i in (rw (m, config_value) tm, rw (s, config_value) ts)

  -- An instance launched for this scale set, whose name and tags the host reports as they were sent,
  -- is an orphan exactly if the tracker does not know its runner; so after a crash, with an empty
  -- tracker, each such instance is found.
  pub is_orphan-launched :
      (known : List Text)
      → Launched
      → i.scale_set_id ≡ cfg.scale_set_id
      → is_orphan cfg known inst ≡ not (contains known i.runner_name)
  unfolding is_orphan build_launch_request
  is_orphan-launched known l same =
      let (m, s) = launched-tags l in
      rw (m, s, same, l.0, eq_self (codes "true"), eq_self (itoa cfg.scale_set_id)) refl

  -- An instance launched for a scale set with another id is never an orphan of this one.
  pub is_orphan-foreign :
      (known : List Text)
      → Launched
      → i.scale_set_id ≢ cfg.scale_set_id
      → is_orphan cfg known inst ≡ false
  unfolding is_orphan
  is_orphan-foreign known l other =
      let (m, s) = launched-tags l in
      let differ =
        eq_false (itoa i.scale_set_id) (itoa cfg.scale_set_id)
          (λ e. other (itoa-injective _ _ e)) in
      rw (m, s, differ, eq_self (codes "true"))
