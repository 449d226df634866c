-- ===== src/Users/Tests.antt =====
-- The theorems on users at concrete calls.
use text.Mathlib.Text.{◌==◌ as str_eq}
use foosball_api.Prelude.{
  some_eq, ◌≡◌, ◌==◌, refl, sym, ap, true, false, none, some, String, if◌then◌else◌,
}
use foosball_api.Users.Memory.{put, memory, memory_laws}
use foosball_api.Auth.RefreshToken.{User}
use foosball_api.Users.{
  Users, UpsertUserInput, trim, trim_start, trim_end, upsert, update_display_name,
}
use foosball_api.Users.Profile.{
  SameAccount, Renamed, upsert_keeps_account, update_display_name_ends,
}

abbrev ada : User
ada = record {
  id = 4;
  azure_oid = "oid";
  email = "ada@example.org";
  display_name = "Ada";
  is_admin = true;
}

abbrev table : Users
table = record {
  by_id = λ i. if i == 4 then some ada else none;
  by_oid = λ h. if str_eq "oid" h then some ada else none;
}

abbrev profile : UpsertUserInput
profile = record { azure_oid = "oid"; email = "ada@example.com"; display_name = "Ada L." }

abbrev signed : User
signed = record ada { email = "ada@example.com"; display_name = "Ada L." }

some_ada : (x : User) → table.by_oid "oid" ≡ some x → x.azure_oid ≡ "oid"
some_ada x found = ap (λ (u : User). u.azure_oid) (sym (some_eq found))

upsert_keeps_account_example :
    ((put signed table).by_oid "oid" ≡ some signed)
    × (signed.azure_oid ≡ profile.azure_oid)
    × (signed.email ≡ profile.email)
    × (signed.display_name ≡ profile.display_name)
    × SameAccount (table.by_oid "oid") signed
    × ((h : String) → str_eq "oid" h ≡ false → (put signed table).by_oid h ≡ table.by_oid h)
unfolding upsert
upsert_keeps_account_example = upsert_keeps_account memory_laws profile table some_ada refl

update_display_name_ends_example :
    Renamed 4 (trim "  Ada L. ") table (update_display_name memory 4 "  Ada L. " table)
update_display_name_ends_example = update_display_name_ends memory_laws 4 "  Ada L. " table

trimmed : trim "  Ada L. " ≡ trim "Ada L."
unfolding trim trim_start trim_end
trimmed = refl
