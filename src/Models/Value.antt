-- ===== src/Models/Value.antt =====
-- The JSON-compatible values that src/clausis/models.py lets through, as Python holds them: `bool`
-- beside `int`, unbounded integers, and floats as exact dyadic rationals.
use clausis.Prelude.{ℕ, ◌+◌, ◌-◌, ◌*◌, ◌^◌, String, Bool, false, ◌&&◌, List, [], ◌∷◌}
use clausis.Prelude.Int.{ℤ, pos, negsuc, leb_ℤ}

-- `finite n k` is n / 2 ^ k; every finite double has this form.
pub data Float : Type 0 where
  finite : ℤ → ℕ → Float
  infinity : Bool → Float
  nan : Float

mutual
  pub data Value : Type 0 where
    null : Value
    bool : Bool → Value
    int : ℤ → Value
    float : Float → Value
    str : String → Value
    obj : Fields → Value
    arr : Items → Value

  pub data Fields : Type 0 where
    end : Fields
    field : String → Value → Fields → Fields

  pub data Items : Type 0 where
    nil : Items
    cons : Value → Items → Items

-- A dictionary with string keys.
abbrev pub Dict : Type 0
Dict = List (String × Value)

abbrev pub to_fields : Dict → Fields
to_fields [] = end
to_fields ((k, v) ∷ d) = field k v (to_fields d)

abbrev pub of_fields : Fields → Dict
of_fields end = []
of_fields (field k v f) = (k, v) ∷ of_fields f

-- n * 2 ^ k
abbrev pub scale : ℕ → ℤ → ℤ
scale k (pos n) = pos (n * 2 ^ k)
scale k (negsuc n) = negsuc ((n + 1) * 2 ^ k - 1)

-- `lo <= x <= hi` for integers `lo` and `hi`: exact, and false at NaN
abbrev pub float_between : ℤ → Float → ℤ → Bool
float_between lo (finite n k) hi = leb_ℤ (scale k lo) n && leb_ℤ n (scale k hi)
float_between lo (infinity b) hi = false
float_between lo nan hi = false

-- The least absolute value at which `float(n)` of an integer raises `OverflowError`: what rounds to
-- 2 ^ 1024.
abbrev pub float_overflow : ℕ
float_overflow = 2 ^ 1024 - 2 ^ 970
