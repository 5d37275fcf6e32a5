-- ===== src/Tests/ConfigRuns.antt =====
-- The theorems on core/src/config.cpp and the knobs in an environment of one variable.
use caedral_notre_engine.Prelude.{
  ◌≡◌, refl, [], Option, none, some, Bytes, codes, bytes_eq, bytes_beq, if◌then◌else◌,
}
use caedral_notre_engine.Prelude.Assoc.{lookup}
use caedral_notre_engine.Config.Env.{cne_key, env}
use caedral_notre_engine.Config.EnvLaws.{Agrees, IsAnswer, env-IsAnswer}
use caedral_notre_engine.Config.Knob.{pos, int_knob}
use caedral_notre_engine.Config.KnobLaws.{int_knob_crashes}

-- The one variable is CNE_LANES, set to the text.
abbrev lanes_set : Bytes → Bytes → Option Bytes
lanes_set v k = if bytes_beq k (cne_key (codes "LANES")) then some v else none

env-IsAnswer_example :
    IsAnswer
      (lanes_set (codes "8"))
      []
      (codes "LANES")
      (env (lanes_set (codes "8")) [] (codes "LANES")).0
    × Agrees (lanes_set (codes "8")) (env (lanes_set (codes "8")) [] (codes "LANES")).1
unfolding lookup
env-IsAnswer_example = env-IsAnswer (lanes_set (codes "8")) [] (codes "LANES") (λ k v h. cc)

int_knob_crashes_example : int_knob (lanes_set []) (λ s. pos 0) (codes "LANES") [] ≡ none
int_knob_crashes_example =
    int_knob_crashes (lanes_set []) (λ s. pos 0) (codes "LANES") [] (unfold lookup in refl)
      (unfold bytes_beq in refl)
