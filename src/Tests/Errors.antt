-- ===== src/Tests/Errors.antt =====
-- An update of an instrument that does not exist (worker.h), on the sample platform.
use rsj.Prelude.{◌≡◌, refl, not, false, List, [], ◌∷◌, All, arith}
use rsj.Prelude.Int.{pos}
use rsj.Platform.Sample.{sample}
use rsj.Init.{initialize_c_style}
use rsj.Producer.{Update}
use rsj.Refinement.Run.{process}
use rsj.Refinement.Errors.{IsOffer, is_done, is_fault, known, unknown_instrument}

-- There are 20 instruments, from 0.
abbrev unknown : List Update
unknown =
    record { seq_num = pos 1; instrument = 3; price = pos 100; volume = pos 10; side = pos 0 }
    ∷ record { seq_num = pos 2; instrument = 20; price = pos 105; volume = pos 20; side = pos 1 }
    ∷ []

unknown-IsOffer : All IsOffer unknown
unknown-IsOffer = ground arith

unknown_instrument_example :
    (is_done (process sample unknown (initialize_c_style sample)) ≡ known unknown)
    × (is_fault (process sample unknown (initialize_c_style sample)) ≡ not (known unknown))
unknown_instrument_example = unknown_instrument sample unknown unknown-IsOffer

one_missing : known unknown ≡ false
one_missing = refl
