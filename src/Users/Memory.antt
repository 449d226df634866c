-- ===== src/Users/Memory.antt =====
-- A users' table in memory, which meets the laws of the interface.
use mathlib.Core.Path.{subst}
use text.Mathlib.Text.{◌==◌ as str_eq}
use foosball_api.Prelude.{some_eq, ◌==◌, refl, sym, ap, false, some, String, if◌then◌else◌}
use foosball_api.Auth.RefreshToken.{User}
use foosball_api.Users.{Users, UserStore, UserLaws, InsertedUser, renamed}

abbrev pub put : User → Users → Users
put u s = record {
  by_id = λ i. if i == u.id then some u else s.by_id i;
  by_oid = λ h. if str_eq u.azure_oid h then some u else s.by_oid h;
}

abbrev new_user : String → String → String → User
new_user oid email name = record {
  id = 9;
  azure_oid = oid;
  email = email;
  display_name = name;
  is_admin = false;
}

abbrev pub memory : UserStore
memory = record {
  insert = λ oid email name s. some (new_user oid email name, put (new_user oid email name) s);
  save = λ u s. some (put u s);
  update_name = λ id name s.
      some (record s { by_id = λ i. if i == id then renamed name (s.by_id i) else s.by_id i });
}

pub memory_laws : UserLaws memory
memory_laws = record {
  insert = λ oid email name u s s' e.
      subst (λ (x : User × Users). InsertedUser oid email name x.0 s x.1) (some_eq e)
        (record { columns = refl; by_id = λ i. refl; by_oid = λ h. refl });
  save = λ u x s s' found same e. (
    λ i. ap (λ (t : Users). t.by_id i) (sym (some_eq e)),
    λ h. ap (λ (t : Users). t.by_oid h) (sym (some_eq e)),
  );
  update_name = λ id name s s' e i. ap (λ (t : Users). t.by_id i) (sym (some_eq e));
}
