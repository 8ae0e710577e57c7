-- ===== src/Path/Grammar.antt =====
-- The grammar that include/configmanager/config_path.hpp states, as a relation between a text and
-- the segments that it denotes.
use config_manager.Common.{◌<◌, ◌≡◌, ◌≢◌, Bytes, true, List, [], ◌∷◌, ◌++◌, all}
use config_manager.Path.{PathSegment, key, index, is_digit, is_key_byte, decimal, size_mod}

-- index* := ( "[" digit+ "]" )*, each index below 2^64
pub data IndexText : Bytes → List PathSegment → Type 0 where
  end : IndexText [] []
  next :
      {t : Bytes} {is : List PathSegment} (ds r : Bytes)
      → all is_digit ds ≡ true
      → ds ≢ []
      → decimal 0 ds < size_mod
      → IndexText r is
      → t ≡ b'[' ∷ ds ++ b']' ∷ r
      → IndexText t (index (decimal 0 ds) ∷ is)

-- path := segment ( "." segment )*; segment := key index*; key := char+, no reserved byte
pub data PathText : Bytes → List PathSegment → Type 0 where
  last :
      {t : Bytes} {segments : List PathSegment} (k it : Bytes) (is : List PathSegment)
      → all is_key_byte k ≡ true
      → k ≢ []
      → IndexText it is
      → t ≡ k ++ it
      → segments ≡ key k ∷ is
      → PathText t segments
  more :
      {t : Bytes} {segments : List PathSegment} (k it r : Bytes) (is rest : List PathSegment)
      → all is_key_byte k ≡ true
      → k ≢ []
      → IndexText it is
      → PathText r rest
      → t ≡ k ++ (it ++ b'.' ∷ r)
      → segments ≡ key k ∷ (is ++ rest)
      → PathText t segments
