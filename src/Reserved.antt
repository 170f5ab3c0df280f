-- ===== src/Reserved.antt =====
-- `RESERVED_WORDS` of sqlalchemy_cubrid/base.py, the words that the identifier preparer quotes, in
-- three parts.
pub mod Early
pub mod Middle
pub mod Late
pub mod Spelling
pub mod Quote
use sqlalchemy_cubrid.Prelude.{List, ◌++◌, Text}
use sqlalchemy_cubrid.Reserved.Early.{words_a_to_d}
use sqlalchemy_cubrid.Reserved.Middle.{words_e_to_o}
use sqlalchemy_cubrid.Reserved.Late.{words_p_to_z}

-- `RESERVED_WORDS`
abbrev pub reserved_words : List Text
reserved_words = words_a_to_d ++ (words_e_to_o ++ words_p_to_z)
