-- ===== src/Engine/Laws.antt =====
-- Which options `create_connect_args` of sqlalchemy_cubrid/dialect.py hands to the driver.
use sqlalchemy_cubrid.Prelude.Dict.{
  upsert-IsUnique, lookup, set_item, lookup-upsert, IsUnique, keys,
}
use sqlalchemy_cubrid.Engine.{
  OptionValue, text, Options, update, get_option, int_of, ConnectArgs, default_host, default_port,
  default_user, create_connect_args,
}
use sqlalchemy_cubrid.Prelude.{
  ℕ, ℤ, pos, parse_int-show_nat, show_nat, ◌≡◌, refl, ap, ◌∙◌, true, false, Option, none, some, [],
  ◌∷◌, Text, codes, text_eq, text_eq_iff, one_of, arith, ok, ◌>>=◌, if◌then◌else◌,
}

abbrev or_else : Option OptionValue → Option OptionValue → Option OptionValue
or_else none o = o
or_else (some v) o = some v

lookup-absent : (k : Text) (query : Options) → one_of k (keys query) ≡ false → lookup k query ≡ none
unfolding lookup one_of
lookup-absent k [] h = refl
lookup-absent k ((j, v) ∷ query) h =
    ground (arith, text_eq_iff j k, text_eq_iff k j, lookup-absent k query)

lookup-set_item :
    (k j : Text) (v : OptionValue) (m : Options)
    → lookup j (set_item k v m) ≡ (if text_eq k j then some v else lookup j m)
unfolding set_item
lookup-set_item k j v m = lookup-upsert k j v (λ w. v) m

lookup-update :
    (k : Text) (opts query : Options)
    → IsUnique (keys query)
    → lookup k (update opts query) ≡ or_else (lookup k query) (lookup k opts)
unfolding update lookup
lookup-update k opts [] h = refl
lookup-update k opts ((j, v) ∷ query) (hj, h) =
    lookup-update k (set_item j v opts) query h
    ∙ ground (arith, text_eq_iff j k, lookup-set_item j k v opts, lookup-absent k query)

-- The option of the query, else that of the URL, else the default.
unfoldable pub chosen : Options → Options → Text → OptionValue → OptionValue
chosen translated query key default = elim (lookup key query) [
  | some v ↦ v
  | none ↦ elim (lookup key translated) [ some v ↦ v | none ↦ default ]
]

-- The arguments for the driver, but for the port.
unfoldable pub connect_args : Options → Options → ℤ → ConnectArgs
unfolding chosen
connect_args translated query port = record {
  host = chosen translated query (codes "host") default_host;
  port = port;
  database = chosen translated query (codes "database") (text []);
  user = chosen translated query (codes "user") default_user;
  password = chosen translated query (codes "password") (text []);
}

get_option-update :
    (translated query : Options) (key : Text) (default : OptionValue)
    → IsUnique (keys query)
    → get_option key default (update translated query) ≡ chosen translated query key default
unfolding get_option chosen
get_option-update translated query key default h =
    ground (arith, lookup-update key translated query h)

create_connect_args-update :
    (translated query : Options)
    → IsUnique (keys query)
    → create_connect_args translated query ≡ (
        int_of (chosen translated query (codes "port") default_port) >>= λ port.
        ok (connect_args translated query port))
unfolding create_connect_args connect_args
create_connect_args-update translated query h =
    rw
      (
        get_option-update translated query (codes "port") default_port h,
        get_option-update translated query (codes "host") default_host h,
        get_option-update translated query (codes "database") (text []) h,
        get_option-update translated query (codes "user") default_user h,
        get_option-update translated query (codes "password") (text []) h,
      )
      refl

chosen-set_item :
    (translated query : Options) (k j : Text) (v default : OptionValue)
    → chosen translated (set_item k v query) j default
      ≡ (if text_eq k j then v else chosen translated query j default)
unfolding chosen
chosen-set_item translated query k j v default = ground (arith, lookup-set_item k j v query)

connect_args-set_item :
    (translated query : Options) (v : OptionValue) (port : ℤ)
    → connect_args translated (set_item (codes "port") v query) port
      ≡ connect_args translated query port
unfolding connect_args text_eq
connect_args-set_item translated query v port =
    rw
      (
        chosen-set_item translated query (codes "port") (codes "host") v default_host,
        chosen-set_item translated query (codes "port") (codes "database") v (text []),
        chosen-set_item translated query (codes "port") (codes "user") v default_user,
        chosen-set_item translated query (codes "port") (codes "password") v (text []),
      )
      refl

int_of-show_nat : (n : ℕ) → int_of (text (show_nat n)) ≡ ok (pos n)
unfolding int_of
int_of-show_nat n = parse_int-show_nat n

port_is_port : text_eq (codes "port") (codes "port") ≡ true
unfolding text_eq
port_is_port = refl

-- The arguments for the driver are, each for itself, what the query of the URL says, else the URL, else
-- the default; the call fails exactly as `int` does on the port that is so chosen. With a number written
-- out as the port of the query it always returns, with that port, and otherwise as before.
pub create_connect_args-chosen :
    (translated query : Options)
    → IsUnique (keys query)
    → (create_connect_args translated query ≡ (
        int_of (chosen translated query (codes "port") default_port) >>= λ port.
        ok (connect_args translated query port)))
      × ((n : ℕ)
          → create_connect_args translated (set_item (codes "port") (text (show_nat n)) query)
            ≡ ok (connect_args translated query (pos n)))
create_connect_args-chosen translated query h = (
  create_connect_args-update translated query h,
  λ n.
      create_connect_args-update translated (set_item (codes "port") (text (show_nat n)) query) (
        unfold set_item in
        upsert-IsUnique (codes "port") (text (show_nat n)) (λ w. text (show_nat n)) query h)
      ∙ (ap
            (λ v. int_of v >>= λ port.
              ok (connect_args translated (set_item (codes "port") (text (show_nat n)) query) port))
            (chosen-set_item translated query (codes "port") (codes "port") (text (show_nat n))
                default_port
              ∙ rw port_is_port refl)
          ∙ (ap
                (λ r. r >>= λ port. ok (
                  connect_args translated (set_item (codes "port") (text (show_nat n)) query) port))
                (int_of-show_nat n)
              ∙ ap ok (connect_args-set_item translated query (text (show_nat n)) (pos n)))),
)
