-- ===== src/Scaleset/Methods.antt =====
-- internal/scaleset/scaleset.go: the methods of a `ScaleSet` that make use of what `Bootstrap` has
-- built: `Run`, `SetMaxRunners`, `Close`, `GenerateJITConfig` and `RemoveRunner`. Each gives the call
-- of GitHub's library that it makes, or its own error.
pub mod Laws
mod Tests
use incuse.Base.{ℤ, Text, Option, none, some, Result, ok, err, ◌⊎◌, inl, inr}
use incuse.Scaleset.Bootstrap.{ScaleSet}

-- `Bootstrap must succeed before …`, or an error of `sslistener.New`.
pub data MethodError : Type 0 where
  not_bootstrapped : MethodError
  listener_error : Text → MethodError

-- `sslistener.Config`
pub record ListenerConfig : Type 0 where
  pub scale_set_id : ℤ
  pub max_runners : ℤ

-- `ssapi.RunnerScaleSetJitRunnerSetting`, with the scale set that it is asked for.
pub record JitCall : Type 0 where
  pub name : Text
  pub work_folder : Text
  pub scale_set_id : ℤ

module _ {Client Session Listener : Type 0} where
  -- `Run` up to `l.Run`: the listener is kept while it runs.
  unfoldable pub started :
      Result Listener
      → ScaleSet Client Session Listener
      → MethodError ⊎ ScaleSet Client Session Listener
  started (err e) s = inl (listener_error e)
  started (ok l) s = inr (record s { listener = some l })

  unfoldable pub begin_run :
      (Session → ListenerConfig → Result Listener)
      → ScaleSet Client Session Listener
      → MethodError ⊎ ScaleSet Client Session Listener
  unfolding started
  begin_run new_listener s = elim s.msg_client [
    | none ↦ inl not_bootstrapped
    | some session ↦
        started
          (new_listener session
            (record { scale_set_id = s.scale_set_id; max_runners = s.opts.spec.max_runners }))
          s
  ]

  -- What `Run` defers.
  unfoldable pub end_run : ScaleSet Client Session Listener → ScaleSet Client Session Listener
  end_run s = record s { listener = none }

  -- The listener that is told the new maximum.
  unfoldable pub set_max_runners : ℤ → ScaleSet Client Session Listener → Option (Listener × ℤ)
  set_max_runners count s = elim s.listener [ none ↦ none | some l ↦ some (l, count) ]

  -- The session that is closed.
  unfoldable pub close : ScaleSet Client Session Listener → Option Session
  close s = s.msg_client

  unfoldable pub generate_jit_config :
      Text → Text → ScaleSet Client Session Listener → MethodError ⊎ (Client × JitCall)
  generate_jit_config name work_folder s = elim s.client [
    | none ↦ inl not_bootstrapped
    | some c ↦
        inr (c, record { name = name; work_folder = work_folder; scale_set_id = s.scale_set_id })
  ]

  unfoldable pub remove_runner : ℤ → ScaleSet Client Session Listener → MethodError ⊎ (Client × ℤ)
  remove_runner id s = elim s.client [ none ↦ inl not_bootstrapped | some c ↦ inr (c, id) ]
