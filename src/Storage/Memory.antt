-- ===== src/Storage/Memory.antt =====
-- A database kept as a function from keys to items. It meets the
-- promises of `Database`, and it runs the examples.
use aera_be.Prelude.{refl, Option, map, not, if◌then◌else◌}
use aera_be.Storage.{Database, passes, written}

abbrev pub memory : {K V : Type 0} → Discrete K → Database K V
memory {K} {V} dec = record {
  State = K → Option V;
  same = dec;
  get = λ s j. s j;
  commit = λ ws s. passes ws s;
  after = λ ws s j. if passes ws s then written dec ws s j else s j;
  refused = λ ws s. map (λ w. not (w.holds (s w.key))) ws;
  refused-holds = λ ws s. refl;
  commit-passes = λ ws s. refl;
  get-after = λ ws s j. refl;
}
