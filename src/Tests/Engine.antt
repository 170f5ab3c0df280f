-- ===== src/Tests/Engine.antt =====
-- Connection arguments of sqlalchemy_cubrid/dialect.py at concrete options.
use sqlalchemy_cubrid.Engine.{
  Options, text, number, create_connect_args, int_of, get_lastrowid, default_port,
}
use sqlalchemy_cubrid.Engine.Laws.{chosen, connect_args, create_connect_args-chosen}
use sqlalchemy_cubrid.Prelude.Dict.{set_item}
use sqlalchemy_cubrid.Prelude.{
  ℕ, ◌≡◌, refl, pos, none, [], ◌∷◌, codes, text_eq, one_of, show_nat, ok, err, value_error,
  attribute_error, ◌>>=◌,
}

abbrev of_url : Options
of_url = (codes "host", text (codes "db")) ∷ (codes "port", number (pos 30000)) ∷ []

abbrev of_query : Options
of_query = (codes "user", text (codes "public")) ∷ (codes "charset", text (codes "utf8")) ∷ []

create_connect_args-chosen_example :
    (create_connect_args of_url of_query ≡ (
      int_of (chosen of_url of_query (codes "port") default_port) >>= λ port.
      ok (connect_args of_url of_query port)))
    × ((n : ℕ)
        → create_connect_args of_url (set_item (codes "port") (text (show_nat n)) of_query)
          ≡ ok (connect_args of_url of_query (pos n)))
create_connect_args-chosen_example =
    create_connect_args-chosen of_url of_query (unfold one_of text_eq in (refl, (refl, tt)))

arguments :
    create_connect_args of_url of_query
    ≡ ok record {
      host = text (codes "db");
      port = pos 30000;
      database = text [];
      user = text (codes "public");
      password = text [];
    }
unfolding create_connect_args text_eq
arguments = refl

-- A port that is no number.
bad_port : create_connect_args of_url ((codes "port", text (codes "x")) ∷ []) ≡ err value_error
unfolding create_connect_args text_eq
bad_port = refl

-- A driver without `lastrowid`.
no_lastrowid : get_lastrowid (err attribute_error) ≡ ok none
unfolding get_lastrowid
no_lastrowid = refl
