-- ===== src/Sql/Pairs/Preimage.antt =====
-- Which pairs have the same text hashed for them (`kvPairHash` of internal/storage/sqlstore/kv.go).
use Prim.Native.Char.{Char}
use Prim.Native.String.{◌++◌ as str_append}
use Prim.Native.String.append.{nil, cons}
use alertsnitch.Base.Texts.{Avoids, split}
use alertsnitch.Base.{◌≡◌, refl, sym, ◌∙◌, ap, String}
use alertsnitch.Sql.Pairs.{separator, preimage}

abbrev soh : Char
soh = "\u{1}"

-- The separator does not occur. A label name that matches the label grammar is such a text.
abbrev pub NoSeparator : String → Type 0
NoSeparator = Avoids soh

separated : (v : String) → str_append separator v ≡ String.◌∷◌ soh v
separated v = cons soh "" v ∙ ap (λ s. String.◌∷◌ soh s) (nil v)

-- Pairs whose keys do not have the separator, and whose hashed texts are the same, are the same.
pub preimage_injective :
    (k k' v v' : String)
    → NoSeparator k
    → NoSeparator k'
    → preimage k v ≡ preimage k' v'
    → (k ≡ k') × (v ≡ v')
unfolding preimage
preimage_injective k k' v v' n n' h =
    split soh k k' v v' n n'
      (ap (str_append k) (sym (separated v)) ∙ (h ∙ ap (str_append k') (separated v')))

-- With the separator in a key two pairs can share a row.
preimage_ambiguous : preimage "a\u{1}" "b" ≡ preimage "a" "\u{1}b"
unfolding preimage
preimage_ambiguous = refl
