-- ===== src/Oid/Laws.antt =====
-- Paths and tables of sqlalchemy_cubrid/oid.py: what a path spells, and the table option against
-- `post_create_table` of sqlalchemy_cubrid/compiler.py.
use sqlalchemy_cubrid.Version.{tuple_ge}
use sqlalchemy_cubrid.Ddl.{post_create_table}
use sqlalchemy_cubrid.Oid.{
  OidPath, column, deref, visit_oid_deref, CreateTableDontReuseOid,
  visit_create_table_dont_reuse_oid,
}
use sqlalchemy_cubrid.Prelude.{
  if◌then◌else◌, split_All, ℕ, ◌≡◌, refl, sym, ap, ◌∙◌, Bool, true, false, none, List, [], ◌∷◌,
  ◌++◌, map, append_assoc, Text, codes, join, split, split_from, split_from-Lacks,
  split_from-append, All, Lacks,
}

-- The column and the attributes of a path, in their order.
unfoldable pub path_names : OidPath → List Text
path_names (column c) = c ∷ []
path_names (deref p attr_name) = path_names p ++ attr_name ∷ []

split-visit_oid_deref_rest :
    (p : OidPath) (rest : Text)
    → All (Lacks b'.') (path_names p)
    → split_from b'.' [] (visit_oid_deref p ++ b'.' ∷ rest)
      ≡ path_names p ++ split_from b'.' [] rest
unfolding visit_oid_deref path_names
split-visit_oid_deref_rest (column c) rest (h, t) = split_from-append b'.' [] c rest h
split-visit_oid_deref_rest (deref p a) rest h =
    ap (split_from b'.' []) (append_assoc (visit_oid_deref p) (b'.' ∷ a) (b'.' ∷ rest))
    ∙ (split-visit_oid_deref_rest p (a ++ b'.' ∷ rest) (split_All _ (path_names p) (a ∷ []) h).0
        ∙ (ap (λ names. path_names p ++ names)
              (split_from-append b'.' [] a rest (split_All _ (path_names p) (a ∷ []) h).1.0)
            ∙ sym (append_assoc (path_names p) (a ∷ []) (split_from b'.' [] rest))))

-- A path says which attributes it goes through: taken apart at its dots it is the column and the
-- attributes in the order of the calls of `deref`, provided that no name has a dot in it.
pub split-visit_oid_deref :
    (p : OidPath) → All (Lacks b'.') (path_names p) → split b'.' (visit_oid_deref p) ≡ path_names p
unfolding visit_oid_deref path_names split
split-visit_oid_deref (column c) (h, t) = split_from-Lacks b'.' [] c h
split-visit_oid_deref (deref p a) h =
    split-visit_oid_deref_rest p a (split_All _ (path_names p) (a ∷ []) h).0
    ∙ ap (λ names. path_names p ++ names)
        (split_from-Lacks b'.' [] a (split_All _ (path_names p) (a ∷ []) h).1.0)

suffix :
    (b : Bool)
    → (if b then codes " DONT_REUSE_OID" else [])
      ≡ (elim ((if b then codes "DONT_REUSE_OID" ∷ [] else []) ++ []) [
        | [] ↦ []
        | o ∷ os ↦ codes " " ++ join (codes " ") (o ∷ os)
      ])
unfolding join
suffix true = refl
suffix false = refl

-- A table for OID references is written like any table with `dont_reuse_oid`: what follows the columns
-- is what `post_create_table` writes for that option and no comment, for every server version.
pub visit_create_table_dont_reuse_oid-post_create_table :
    {C : Type 0} (quote_identifier : Text → Text) (specification : C → Text) (version : List ℕ)
    (e : CreateTableDontReuseOid C)
    → visit_create_table_dont_reuse_oid quote_identifier specification version e
      ≡ codes "CREATE TABLE "
        ++ (quote_identifier e.name
            ++ (codes " ("
                ++ (join (codes ", ") (map specification e.columns)
                    ++ (codes ")" ++ post_create_table true version none))))
unfolding visit_create_table_dont_reuse_oid post_create_table
visit_create_table_dont_reuse_oid-post_create_table q spec version e =
    ap
      (λ t.
        codes "CREATE TABLE "
        ++ (q e.name
            ++ (codes " (" ++ (join (codes ", ") (map spec e.columns) ++ (codes ")" ++ t)))))
      (suffix (tuple_ge version (11 ∷ 0 ∷ [])))
