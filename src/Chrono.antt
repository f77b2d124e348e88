-- ===== src/Chrono.antt =====
-- What the crates use of `chrono`, which is not in the repository: the time type and its text form.
-- The laws are the documented behaviour of the calls.
use custodly.Prelude.{ℕ, ◌≡◌, false, Option, some, is_empty}
use custodly.Prelude.Int.{ℤ, ◌+ℤ◌, ◌-ℤ◌, pos}
use custodly.Text.{Text, has, trim}

pub record Chrono : Type 1 where
  pub DateTime : Type 0
  pub to_rfc3339 : DateTime → Text
  -- `parse().ok()`.
  pub parse : Text → Option DateTime
  pub timestamp : DateTime → ℤ
  -- `now + Duration` and `now - Duration`, in whole seconds.
  pub plus : DateTime → ℕ → DateTime
  pub minus : DateTime → ℕ → DateTime

-- A printed time parses back, and is a nonempty line without white space at its ends.
pub record IsRfc3339 (c : Chrono) : Type 0 where
  pub parse-to_rfc3339 : (t : c.DateTime) → c.parse (c.to_rfc3339 t) ≡ some t
  pub one_line : (t : c.DateTime) → has b'\n' (c.to_rfc3339 t) ≡ false
  pub trimmed : (t : c.DateTime) → trim (c.to_rfc3339 t) ≡ c.to_rfc3339 t
  pub nonempty : (t : c.DateTime) → is_empty (c.to_rfc3339 t) ≡ false

-- Adding a duration moves the time stamp by its seconds.
pub record IsClock (c : Chrono) : Type 0 where
  pub timestamp-plus : (t : c.DateTime) (d : ℕ) → c.timestamp (c.plus t d) ≡ c.timestamp t +ℤ pos d
  pub timestamp-minus :
      (t : c.DateTime) (d : ℕ) → c.timestamp (c.minus t d) ≡ c.timestamp t -ℤ pos d
