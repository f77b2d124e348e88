-- ===== src/Tests/Github.antt =====
-- Grants and tokens.
use custodly.Prelude.{ℕ, ◌≡◌, ◌↔◌, refl, [], ◌∷◌, All, Result, ok, err}
use custodly.Text.{codes, eq_text}
use custodly.Map.{get}
use custodly.Github.{
  Permissions, GithubError, scope_creep, unrecognized_permission, InstallationTokenResponse,
  verify_no_scope_creep, level_rank, verify_entries, verify_entry, verify_level,
}
use custodly.Github.Creep.{IsCovered, verify_no_scope_creep_iff}
use custodly.Github.Refusal.{StopsAt, verify_no_scope_creep-StopsAt, unranked_request_covers_write}

abbrev contents_read : Permissions
contents_read = (codes "contents", codes "read") ∷ []

abbrev contents_write : Permissions
contents_write = (codes "contents", codes "write") ∷ []

abbrev with_baseline : Permissions
with_baseline = (codes "contents", codes "read") ∷ (codes "metadata", codes "read") ∷ []

abbrev verify : Permissions → Permissions → Result (GithubError ℕ ℕ) (Unit {0})
verify = verify_no_scope_creep

-- The tests of app.rs.
verdicts :
    (verify contents_read contents_read ≡ ok tt)
    × (verify contents_write contents_read ≡ ok tt)
    × (verify contents_read contents_write ≡ err (scope_creep contents_read contents_write))
    × (verify contents_read with_baseline ≡ ok tt)
    × (verify ((codes "contents", codes "admin") ∷ []) ((codes "contents", codes "admin") ∷ [])
        ≡ err (unrecognized_permission ((codes "contents", codes "admin") ∷ [])))
unfolding verify_no_scope_creep verify_entries verify_entry verify_level level_rank get eq_text
verdicts = (refl, refl, refl, refl, refl)

verify_no_scope_creep_iff_example :
    (verify contents_read with_baseline ≡ ok tt) ↔ All (IsCovered contents_read) with_baseline
verify_no_scope_creep_iff_example = verify_no_scope_creep_iff contents_read with_baseline

verify_no_scope_creep-StopsAt_example :
    let e : GithubError ℕ ℕ = scope_creep contents_read contents_write in
    StopsAt contents_read contents_write contents_write e
verify_no_scope_creep-StopsAt_example =
    verify_no_scope_creep-StopsAt contents_read contents_write
      (scope_creep contents_read contents_write) verdicts.2

unranked_request_covers_write_example :
    verify ((codes "contents", codes "none") ∷ []) contents_write ≡ ok tt
unfolding get level_rank eq_text
unranked_request_covers_write_example =
    unranked_request_covers_write ((codes "contents", codes "none") ∷ []) (codes "contents")
      (codes "none") refl refl

abbrev response : InstallationTokenResponse ℕ
response = record { token = codes "ghs_test"; expires_at = 60; permissions = with_baseline }
