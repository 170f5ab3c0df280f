-- ===== src/Tests/ForeignKeys.antt =====
-- `get_foreign_keys` of sqlalchemy_cubrid/dialect.py on the text of a table with two foreign keys.
use sqlalchemy_cubrid.Regex.{match, run, run_star, run_lazy}
use sqlalchemy_cubrid.Reflect.ForeignKeys.{
  fk_pattern, get_foreign_keys, find_all, ForeignKey, foreign_key, sort_by_name,
}
use sqlalchemy_cubrid.Reflect.ForeignKeys.Printed.{PrintedKey, cascade, set_null}
use sqlalchemy_cubrid.Reflect.ForeignKeys.RoundTrip.{entry_of, get_foreign_keys-ddl_text}
use sqlalchemy_cubrid.Reflect.ForeignKeys.ReadBack.{ddl_text, IsQuiet}
use sqlalchemy_cubrid.Reflect.ForeignKeys.Order.{IsAscending, named, get_foreign_keys-IsAscending}
use sqlalchemy_cubrid.Reflect.ForeignKeys.Columns.{IsColumnChar}
use sqlalchemy_cubrid.Prelude.{
  ℕ, zero, true, ◌&&◌, ◌||◌, ◌==◌, is_lower, map, join, All, Lacks, arith, ◌≡◌, refl, Bool, false,
  none, some, List, [], ◌∷◌, ◌++◌, Text, codes, ok, to_lower,
}

abbrev to_owner : PrintedKey
to_owner = record {
  name = codes "fk_owner";
  columns = codes "owner_id" ∷ [];
  owner = some (codes "dba");
  table = codes "person";
  referred = codes "id" ∷ [];
  on_delete = some cascade;
  on_update = none;
}

abbrev to_city : PrintedKey
to_city = record {
  name = codes "fk_city";
  columns = codes "zip" ∷ codes "state" ∷ [];
  owner = none;
  table = codes "city";
  referred = codes "zip" ∷ codes "code" ∷ [];
  on_delete = none;
  on_update = some set_null;
}

printed_text :
    ddl_text ((to_owner, codes ", ") ∷ (to_city, codes ")") ∷ [])
    ≡ codes
        "CONSTRAINT [fk_owner] FOREIGN KEY ([owner_id]) REFERENCES [dba.person] ([id]) ON DELETE CASCADE, CONSTRAINT [fk_city] FOREIGN KEY ([zip], [state]) REFERENCES [city] ([zip], [code]) ON UPDATE SET NULL)"
unfolding join
printed_text = refl

create_table-IsQuiet : IsQuiet (codes "CREATE TABLE [t] (")
unfolding match run run_star run_lazy fk_pattern to_lower
create_table-IsQuiet = (
  λ r. refl,
  (
    λ r. refl,
    (
      λ r. refl,
      (
        λ r. refl,
        (
          λ r. refl,
          (
            λ r. refl,
            (
              λ r. refl,
              (
                λ r. refl,
                (
                  λ r. refl,
                  (
                    λ r. refl,
                    (
                      λ r. refl,
                      (
                        λ r. refl,
                        (
                          λ r. refl,
                          (λ r. refl, (λ r. refl, (λ r. refl, (λ r. refl, (λ r. refl, tt))))),
                        ),
                      ),
                    ),
                  ),
                ),
              ),
            ),
          ),
        ),
      ),
    ),
  ),
)

abbrev every : (ℕ → Bool) → Text → Bool
every test [] = true
every test (c ∷ s) = test c && every test s

every-All :
    {P : ℕ → Type 0} (test : ℕ → Bool) (s : Text)
    → ((c : ℕ) → test c ≡ true → P c)
    → every test s ≡ true
    → All P s
every-All test [] sound h = tt
every-All test (c ∷ s) sound h =
    (sound c (ground (arith, h)), every-All test s sound (ground (arith, h)))

abbrev plain : ℕ → Bool
plain c = is_lower c || c == b'_'

plain-Lacks : (d : ℕ) (s : Text) → plain d ≡ false → every plain s ≡ true → Lacks d s
plain-Lacks d s p h = every-All plain s (λ c k. λ e. ground (arith, p, k, e)) h

plain-IsColumn : (s : Text) → every plain s ≡ true → All IsColumnChar s
plain-IsColumn s h =
    every-All plain s (λ c k. (ground (arith, k), ground (arith, k), ground (arith, k))) h

get_foreign_keys-ddl_text_example :
    get_foreign_keys none
      (ok (
        some (
          codes "CREATE TABLE [t] ("
          ++ ddl_text ((to_owner, codes ", ") ∷ (to_city, codes ")") ∷ []))))
      (ok false)
    ≡ ok (entry_of none to_city ∷ entry_of none to_owner ∷ [])
unfolding match run run_star run_lazy fk_pattern to_lower sort_by_name
get_foreign_keys-ddl_text_example =
    get_foreign_keys-ddl_text none (codes "CREATE TABLE [t] (")
      ((to_owner, codes ", ") ∷ (to_city, codes ")") ∷ []) (ok false) create_table-IsQuiet
      (
        (
          (
            ((cc), plain-Lacks b']' (codes "fk_owner") refl refl),
            (plain-IsColumn (codes "owner_id") refl, tt),
            ((cc), plain-Lacks b']' (codes "dba") refl refl),
            (
              ((cc), plain-Lacks b']' (codes "person") refl refl),
              plain-Lacks b'.' (codes "person") refl refl,
            ),
            (plain-IsColumn (codes "id") refl, tt),
          ),
          (refl, ((λ r. refl), ((λ r. refl), tt))),
        ),
        (
          (
            (
              ((cc), plain-Lacks b']' (codes "fk_city") refl refl),
              (plain-IsColumn (codes "zip") refl, (plain-IsColumn (codes "state") refl, tt)),
              tt,
              (
                ((cc), plain-Lacks b']' (codes "city") refl refl),
                plain-Lacks b'.' (codes "city") refl refl,
              ),
              (plain-IsColumn (codes "zip") refl, (plain-IsColumn (codes "code") refl, tt)),
            ),
            (refl, ((λ r. refl), tt)),
          ),
          tt,
        ),
      )

-- The same, by running the code on the text.
run_of_text :
    get_foreign_keys none
      (ok (
        some (
          codes "CREATE TABLE [t] ("
          ++ ddl_text ((to_owner, codes ", ") ∷ (to_city, codes ")") ∷ []))))
      (ok false)
    ≡ ok (entry_of none to_city ∷ entry_of none to_owner ∷ [])
unfolding get_foreign_keys join to_lower
run_of_text = refl

get_foreign_keys-IsAscending_example :
    (fks : List ForeignKey) × (get_foreign_keys none
        (ok (some (ddl_text ((to_owner, codes ", ") ∷ (to_city, codes ")") ∷ []))))
        (ok false)
      ≡ ok fks)
    × IsAscending fks
    × ((k : Text)
        → named k fks
          ≡ named k (
              map
                (foreign_key none)
                (find_all zero (ddl_text ((to_owner, codes ", ") ∷ (to_city, codes ")") ∷ [])))))
get_foreign_keys-IsAscending_example =
    get_foreign_keys-IsAscending none
      (ddl_text ((to_owner, codes ", ") ∷ (to_city, codes ")") ∷ [])) (ok false)
