-- ===== src/Tests/Names.antt =====
-- A run of mdv_uuid.c.
use medved_db.Base.{◌≡◌, refl, [], ◌∷◌, some, arith}
use medved_db.Uuid.{Uuid, to_str, from_str}
use medved_db.Uuid.Text.{from_str-to_str}

abbrev some_uuid : Uuid
some_uuid = 0 ∷ 255 ∷ 16 ∷ 1 ∷ 171 ∷ 205 ∷ 9 ∷ 144 ∷ 7 ∷ 8 ∷ 127 ∷ 128 ∷ 64 ∷ 33 ∷ 2 ∷ 254 ∷ []

from_str-to_str_example : from_str (to_str some_uuid) ≡ some some_uuid
from_str-to_str_example = from_str-to_str some_uuid refl (
  omega arith,
  (
    omega arith,
    (
      omega arith,
      (
        omega arith,
        (
          omega arith,
          (
            omega arith,
            (
              omega arith,
              (
                omega arith,
                (
                  omega arith,
                  (
                    omega arith,
                    (
                      omega arith,
                      (omega arith, (omega arith, (omega arith, (omega arith, (omega arith, tt))))),
                    ),
                  ),
                ),
              ),
            ),
          ),
        ),
      ),
    ),
  ),
)
