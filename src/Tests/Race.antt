-- ===== src/Tests/Race.antt =====
-- Calls of `get_or_create` side by side, on a keystore with one slot and loaded dice.
use custodly.Prelude.{ℕ, ◌≡◌, ◌-◌, refl, ◌∷◌, ok, is_empty, if◌then◌else◌, arith, some, ◌≢◌}
use custodly.Text.{Text, codes, eq_text}
use custodly.Text.Equality.{ne_of_test}
use custodly.Vault.Host.{Host, IsKeystore}
use custodly.Vault.Password.{nth, generate, generate_chars, get_or_create, existing_or, create}
use custodly.Vault.Race.{finished, all_opening, turn, take_turns, Calls, start, one_turn}
use custodly.Vault.Race.Kept.{Reach-kept}
use custodly.Vault.Race.Lost.{in_step, take_turns_lost}
use custodly.Tests.Machine.{World, fresh, machine, machine-IsKeystore}

-- The first throw is the lowest, and every later one the highest.
abbrev dice : Host
dice = record machine {
  random_range = λ n h w. (
    if is_empty w.printed then (0, h) else (n - 1, omega arith),
    record w { printed = codes "thrown" ∷ w.printed },
  );
}

dice-IsKeystore : IsKeystore dice
dice-IsKeystore = record {
  get-set_password = machine-IsKeystore.get-set_password;
  get-get_password = machine-IsKeystore.get-get_password;
}

abbrev name : Text
name = codes "main"

abbrev first : Text
first = (generate dice fresh).0

abbrev thrown : World
thrown = (generate dice fresh).1

abbrev second : Text
second = (generate dice thrown).0

abbrev twice_thrown : World
twice_thrown = (generate dice thrown).1

first-ne-second : first ≢ second
unfolding generate generate_chars nth eq_text
first-ne-second = ne_of_test first second refl

abbrev raced : Calls dice
raced = take_turns dice name in_step (all_opening dice fresh)

take_turns_lost_example :
    (raced.calls 0 ≡ finished (ok first))
    × (raced.calls 1 ≡ finished (ok second))
    × (get_or_create dice name raced.world ≡ (ok second, raced.world))
take_turns_lost_example =
    take_turns_lost dice dice-IsKeystore name first second tt tt tt fresh fresh fresh thrown
      twice_thrown (record twice_thrown { keystore = some first })
      (record twice_thrown { keystore = some second }) refl (refl, refl) (refl, refl) (refl, refl)
      (refl, refl)

abbrev created : World
created = (get_or_create dice name fresh).1

created_eq : get_or_create dice name fresh ≡ (ok first, created)
unfolding get_or_create existing_or create
created_eq = refl

abbrev later_calls : Calls dice
later_calls = turn dice name 5 (turn dice name 7 (turn dice name 5 (all_opening dice created)))

Reach-kept_example :
    ((i : ℕ) (r : _) → later_calls.calls i ≡ finished r → r ≡ ok first)
    × (get_or_create dice name later_calls.world ≡ (ok first, later_calls.world))
Reach-kept_example =
    Reach-kept dice dice-IsKeystore name first fresh created created_eq later_calls
      (one_turn (one_turn (one_turn start 5) 7) 5)
