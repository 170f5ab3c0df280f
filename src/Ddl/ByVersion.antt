-- ===== src/Ddl/ByVersion.antt =====
-- What `CubridDDLCompiler.post_create_table` of sqlalchemy_cubrid/compiler.py and
-- `_serial_attr_column` of sqlalchemy_cubrid/dialect.py do on a server, by the version it prints.
use sqlalchemy_cubrid.Prelude.{
  ℕ, ◌≡◌, refl, Bool, true, false, ◌&&◌, ◌||◌, ◌==◌, Option, none, some, List, [], ◌∷◌, ◌++◌, Text,
  codes, arith, ltb, leb, if◌then◌else◌,
}
use sqlalchemy_cubrid.Version.{server_version_info, cubrid_version, tuple_ge, serial_attr_column}
use sqlalchemy_cubrid.Version.Laws.{IsSuffix, print_version, server_version_info-print}
use sqlalchemy_cubrid.Ddl.{given_text, post_create_table}

-- The version that the dialect keeps, from what the server printed.
abbrev pub known_version : Text → List ℕ
known_version printed = cubrid_version (some (server_version_info printed))

known_version-print :
    (n : ℕ) (ns : List ℕ) (s : Text)
    → IsSuffix s
    → known_version (print_version (n ∷ ns) s) ≡ n ∷ ns
unfolding cubrid_version
known_version-print n ns s h = rw (server_version_info-print n ns s h)

post_create_table-tuple_ge :
    (reuse b : Bool) (version : List ℕ) (comment : Option Text)
    → tuple_ge version (11 ∷ 0 ∷ []) ≡ b
    → post_create_table reuse version comment
      ≡ (if reuse && b then codes " DONT_REUSE_OID" else [])
        ++ given_text (codes " COMMENT=") comment
unfolding post_create_table tuple_ge
post_create_table-tuple_ge true true version none e = rw (e, post_create_table) refl
post_create_table-tuple_ge true true version (some c) e = rw (e, post_create_table) refl
post_create_table-tuple_ge true false version none e = rw (e, post_create_table) refl
post_create_table-tuple_ge true false version (some c) e = rw (e, post_create_table) refl
post_create_table-tuple_ge false b version none e = refl
post_create_table-tuple_ge false b version (some c) e = refl

tuple_ge-major : (n m : ℕ) (ns : List ℕ) → tuple_ge (n ∷ m ∷ ns) (11 ∷ 0 ∷ []) ≡ leb 11 n
unfolding tuple_ge
tuple_ge-major n m ns = ground arith

tuple_ge-minor :
    (n m : ℕ) (ns : List ℕ) → tuple_ge (n ∷ m ∷ ns) (11 ∷ 4 ∷ []) ≡ (ltb 11 n || n == 11 && leb 4 m)
unfolding tuple_ge
tuple_ge-minor n m ns = ground arith

-- On a server that prints its version as "n.m…", numbers between dots with or without a suffix, the
-- option DONT_REUSE_OID is written, when it is asked for, exactly from major version 11 on, before the
-- comment if there is one; and the serials' column is `attr_name` exactly from version 11.4 on.
pub post_create_table-print_version :
    (n m : ℕ) (ns : List ℕ) (s : Text) (reuse : Bool) (comment : Option Text)
    → IsSuffix s
    → (post_create_table reuse (known_version (print_version (n ∷ m ∷ ns) s)) comment
        ≡ (if reuse && leb 11 n then codes " DONT_REUSE_OID" else [])
          ++ given_text (codes " COMMENT=") comment)
      × (serial_attr_column (known_version (print_version (n ∷ m ∷ ns) s))
          ≡ (if ltb 11 n || n == 11 && leb 4 m then codes "attr_name" else codes "att_name"))
unfolding serial_attr_column
post_create_table-print_version n m ns s reuse comment h =
    let e = known_version-print n (m ∷ ns) s h in
    (
      rw e (
          post_create_table-tuple_ge reuse (leb 11 n) (n ∷ m ∷ ns) comment (tuple_ge-major n m ns)),
      rw (e, tuple_ge-minor n m ns) refl,
    )
