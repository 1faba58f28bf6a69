-- ===== src/Tests/Completion.antt =====
-- The conditions under which a deposit and a transaction succeed, at those of Scenario.
use veil.Prelude.{◌≡◌, ◌↔◌}
use veil.Prelude.Res.{ok}
use veil.Program.State.{Chain}
use veil.Program.Shield.{shield}
use veil.Program.Shield.Exactly.{IsShieldable, shield_iff}
use veil.Program.Transact.{transact}
use veil.Program.Transact.Exactly.{IsExecutable, transact_iff}
use veil.Tests.Runtime.{toy_runtime, toy_runtime-IsRuntime}
use veil.Tests.Scenario.{
  initialized, shielded, withdrawn, shield_keys, npk, note, withdraw_keys, withdraw_args,
  shield_runs, transact_runs,
}

transact_iff_example :
    ((t : Chain toy_runtime) × (transact toy_runtime shielded withdraw_keys withdraw_args ≡ ok t))
    ↔ IsExecutable toy_runtime toy_runtime-IsRuntime shielded withdraw_keys withdraw_args
transact_iff_example =
    transact_iff toy_runtime toy_runtime-IsRuntime shielded withdraw_keys withdraw_args

withdraw-IsExecutable :
    IsExecutable toy_runtime toy_runtime-IsRuntime shielded withdraw_keys withdraw_args
withdraw-IsExecutable =
    (transact_iff toy_runtime toy_runtime-IsRuntime shielded withdraw_keys withdraw_args).0
      (withdrawn, transact_runs)

shield_iff_example :
    ((t : Chain toy_runtime) × (shield toy_runtime initialized shield_keys npk 40 note ≡ ok t))
    ↔ IsShieldable toy_runtime toy_runtime-IsRuntime initialized shield_keys npk 40 note
shield_iff_example =
    shield_iff toy_runtime toy_runtime-IsRuntime initialized shield_keys npk 40 note

shielded-IsShieldable :
    IsShieldable toy_runtime toy_runtime-IsRuntime initialized shield_keys npk 40 note
shielded-IsShieldable =
    (shield_iff toy_runtime toy_runtime-IsRuntime initialized shield_keys npk 40 note).0
      (shielded, shield_runs)
