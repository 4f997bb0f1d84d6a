-- ===== src/Tests/Boot.antt =====
-- main on a log of calls.
use ledger_sovereign.Base.{ℕ, ◌≡◌, refl, List, [], ◌∷◌, ◌++◌}
use ledger_sovereign.Device.{returned, thrown}
use ledger_sovereign.Boot.{Kernel, main}

-- Every call writes its number; app_main throws.
abbrev logging : Kernel (List ℕ)
logging = record {
  enable_interrupts = λ log. log ++ 1 ∷ [];
  view_init = λ log. log ++ 2 ∷ [];
  os_boot = λ log. log ++ 3 ∷ [];
  app_init = λ log. (returned tt, log ++ 4 ∷ []);
  app_main = λ log. (thrown 16, log ++ 5 ∷ []);
}

main_drops_the_code : main logging [] ≡ (returned tt, 1 ∷ 2 ∷ 3 ∷ 4 ∷ 5 ∷ [])
unfolding main
main_drops_the_code = refl

-- When app_init throws, app_main does not run.
abbrev no_start : Kernel (List ℕ)
no_start = record logging { app_init = λ log. (thrown 7, log ++ 4 ∷ []) }

main_skips_the_loop : main no_start [] ≡ (returned tt, 1 ∷ 2 ∷ 3 ∷ 4 ∷ [])
unfolding main
main_skips_the_loop = refl
