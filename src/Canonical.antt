-- ===== src/Canonical.antt =====
-- The values of src/fieldtrue/canonical.py: what may be given to it, and what it serializes.
mod Tests
pub mod Text
pub mod Encode
pub mod Read
pub mod Digits
pub mod Clear
pub mod RoundTrip
pub mod Surrogates
pub mod Unescape
pub mod Inverse
pub mod Injective
pub mod Same
pub mod Order
pub mod Compose
use inbar.Prelude.{ℕ, List, Bool}
use inbar.Domain.{ℤ}

-- Texts are lists of code points, so that the code points that no UTF-8 text has are among them.
-- A finite float is given by its `repr`.
mutual
  pub data Normal : Type 0 where
    null : Normal
    boolean : Bool → Normal
    integer : ℤ → Normal
    float : List ℕ → Normal
    text : List ℕ → Normal
    array : Items → Normal
    object : Fields → Normal

  pub data Items : Type 0 where
    nil : Items
    cons : Normal → Items → Items

  pub data Fields : Type 0 where
    end : Fields
    field : List ℕ → Normal → Fields → Fields

-- The key of an entry, a text or something else.
pub data Key : Type 0 where
  text_key : List ℕ → Key
  other_key : Key

-- A Python value, by the first of the tests of `_normalize` that it passes: a model with its dump, an
-- enumeration with its value, a path with its POSIX text, whether a datetime has an offset with its
-- ISO text in UTC before the offset, a date with its ISO text, whether a decimal or a float is finite
-- with its text, and the containers.
mutual
  pub data Value : Type 0 where
    model : Value → Value
    enum : Value → Value
    path : List ℕ → Value
    datetime : Bool → List ℕ → Value
    date : List ℕ → Value
    decimal : Bool → List ℕ → Value
    float_value : Bool → List ℕ → Value
    none_value : Value
    text_value : List ℕ → Value
    integer_value : ℤ → Value
    boolean_value : Bool → Value
    raw_bytes : Value
    mapping : Entries → Value
    set_value : Values → Value
    sequence : Values → Value
    unsupported : Value

  pub data Values : Type 0 where
    no_values : Values
    value : Value → Values → Values

  pub data Entries : Type 0 where
    no_entries : Entries
    entry : Key → Value → Entries → Entries

pub data CanonicalizationError : Type 0 where
  naive_datetime infinite_decimal infinite_float bytes_without_encoding : CanonicalizationError
  key_not_text unsupported_type : CanonicalizationError
