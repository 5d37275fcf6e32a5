-- ===== src/Tests/RuntimeRuns.antt =====
-- The theorem on the context of runtime/cne_runtime.cpp in an empty environment.
use caedral_notre_engine.Prelude.{◌≡◌, List, [], Option, none, some, Bytes, bytes_eq}
use caedral_notre_engine.Prelude.Assoc.{lookup}
use caedral_notre_engine.Config.Knob.{pos}
use caedral_notre_engine.Runtime.Context.{RuntimeSettings, ContextPlan, plan_context}
use caedral_notre_engine.Runtime.ContextLaws.{IsServable, plan_context_bounds}

abbrev unset : Bytes → Option Bytes
unset k = none

abbrev defaults : RuntimeSettings
defaults = record { n_ctx = pos 1024; n_threads = pos 8 }

plan_context_bounds_example :
    (p : ContextPlan) × (m' : List (Bytes × Bytes)) × (plan_context unset (λ s. pos 0) defaults []
      ≡ some (p, m'))
    × IsServable p
unfolding lookup
plan_context_bounds_example =
    plan_context_bounds unset (λ s. pos 0) defaults [] (λ k v h. cc) (λ h. cc) (λ h. cc) (λ h. cc)
