-- ===== src/Tests/Processes.antt =====
-- Processes side by side on the database that is a list of entries.
use custodly.Prelude.{ℕ, zero, suc, refl, [], ◌∷◌, List}
use custodly.Text.{codes, has, strip_cr}
use custodly.Vault.Abstract.{Call, put_call, get_call, IsCall}
use custodly.Vault.Processes.{Processes, take_turns, all_waiting}
use custodly.Vault.Processes.Linear.{Linear, take_turns-Linear}
use custodly.Tests.Vault.{tick_clock, tick_clock-IsRfc3339, moved_key, moved_key-IsWritable}
use custodly.Tests.Machine.{a_vault}
use custodly.Tests.Database.{disk_host, disk_host-IsDatabase, empty_disk, no_contents, starts}

-- One process stores a key that all others ask for.
abbrev calls : ℕ → Call disk_host tick_clock
calls zero = put_call (codes "pat") moved_key (codes "s3cret")
calls (suc i) = get_call (record { project = codes "redaktly"; label = codes "pat" })

calls-IsCall : (i : ℕ) → IsCall disk_host tick_clock (calls i)
unfolding has strip_cr
calls-IsCall zero = (moved_key-IsWritable, (refl, refl))
calls-IsCall (suc i) = tt

abbrev order : List ℕ
order = 0 ∷ 1 ∷ 0 ∷ 2 ∷ []

abbrev at_the_end : Processes disk_host tick_clock a_vault
at_the_end =
    take_turns disk_host tick_clock a_vault order
      (all_waiting disk_host tick_clock a_vault calls empty_disk)

take_turns-Linear_example :
    Linear disk_host tick_clock tick_clock-IsRfc3339 a_vault disk_host-IsDatabase no_contents calls
      at_the_end
take_turns-Linear_example =
    take_turns-Linear disk_host tick_clock tick_clock-IsRfc3339 a_vault disk_host-IsDatabase
      no_contents calls order empty_disk starts calls-IsCall
