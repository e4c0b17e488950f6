-- ===== src/Aes/Gf/Tabled.antt =====
-- Facts about single bytes, checked for all 256 of them.
use riscv_soc.Base.{
  ℕ, ◌<◌, ◌==◌, ◌≡◌, refl, true, ltb, ltb→lt, if◌then◌else◌, List, [], ◌∷◌, get_or, all_below,
  all_below_sound, all_equal,
}
use riscv_soc.Aes.Gf.{gmul, inv_of, xtime, mul9, mul11, mul13, mul14, Tables, init_tables}

-- What the tables of a cipher must satisfy for it to be invertible.
pub record IsInvertible (t : Tables) : Type 0 where
  pub undoes : (a : ℕ) → a < 256 → get_or t.inv_sbox (get_or t.sbox a 0) 0 ≡ a
  pub is_byte : (a : ℕ) → a < 256 → get_or t.sbox a 0 < 256

abbrev sbox_values : List ℕ
sbox_values =
    99 ∷ 124 ∷ 119 ∷ 123 ∷ 242 ∷ 107 ∷ 111 ∷ 197 ∷ 48 ∷ 1 ∷ 103 ∷ 43 ∷ 254 ∷ 215 ∷ 171 ∷ 118 ∷ 202
    ∷ 130 ∷ 201 ∷ 125 ∷ 250 ∷ 89 ∷ 71 ∷ 240 ∷ 173 ∷ 212 ∷ 162 ∷ 175 ∷ 156 ∷ 164 ∷ 114 ∷ 192 ∷ 183
    ∷ 253 ∷ 147 ∷ 38 ∷ 54 ∷ 63 ∷ 247 ∷ 204 ∷ 52 ∷ 165 ∷ 229 ∷ 241 ∷ 113 ∷ 216 ∷ 49 ∷ 21 ∷ 4 ∷ 199
    ∷ 35 ∷ 195 ∷ 24 ∷ 150 ∷ 5 ∷ 154 ∷ 7 ∷ 18 ∷ 128 ∷ 226 ∷ 235 ∷ 39 ∷ 178 ∷ 117 ∷ 9 ∷ 131 ∷ 44 ∷ 26
    ∷ 27 ∷ 110 ∷ 90 ∷ 160 ∷ 82 ∷ 59 ∷ 214 ∷ 179 ∷ 41 ∷ 227 ∷ 47 ∷ 132 ∷ 83 ∷ 209 ∷ 0 ∷ 237 ∷ 32
    ∷ 252 ∷ 177 ∷ 91 ∷ 106 ∷ 203 ∷ 190 ∷ 57 ∷ 74 ∷ 76 ∷ 88 ∷ 207 ∷ 208 ∷ 239 ∷ 170 ∷ 251 ∷ 67 ∷ 77
    ∷ 51 ∷ 133 ∷ 69 ∷ 249 ∷ 2 ∷ 127 ∷ 80 ∷ 60 ∷ 159 ∷ 168 ∷ 81 ∷ 163 ∷ 64 ∷ 143 ∷ 146 ∷ 157 ∷ 56
    ∷ 245 ∷ 188 ∷ 182 ∷ 218 ∷ 33 ∷ 16 ∷ 255 ∷ 243 ∷ 210 ∷ 205 ∷ 12 ∷ 19 ∷ 236 ∷ 95 ∷ 151 ∷ 68 ∷ 23
    ∷ 196 ∷ 167 ∷ 126 ∷ 61 ∷ 100 ∷ 93 ∷ 25 ∷ 115 ∷ 96 ∷ 129 ∷ 79 ∷ 220 ∷ 34 ∷ 42 ∷ 144 ∷ 136 ∷ 70
    ∷ 238 ∷ 184 ∷ 20 ∷ 222 ∷ 94 ∷ 11 ∷ 219 ∷ 224 ∷ 50 ∷ 58 ∷ 10 ∷ 73 ∷ 6 ∷ 36 ∷ 92 ∷ 194 ∷ 211 ∷ 172
    ∷ 98 ∷ 145 ∷ 149 ∷ 228 ∷ 121 ∷ 231 ∷ 200 ∷ 55 ∷ 109 ∷ 141 ∷ 213 ∷ 78 ∷ 169 ∷ 108 ∷ 86 ∷ 244
    ∷ 234 ∷ 101 ∷ 122 ∷ 174 ∷ 8 ∷ 186 ∷ 120 ∷ 37 ∷ 46 ∷ 28 ∷ 166 ∷ 180 ∷ 198 ∷ 232 ∷ 221 ∷ 116 ∷ 31
    ∷ 75 ∷ 189 ∷ 139 ∷ 138 ∷ 112 ∷ 62 ∷ 181 ∷ 102 ∷ 72 ∷ 3 ∷ 246 ∷ 14 ∷ 97 ∷ 53 ∷ 87 ∷ 185 ∷ 134
    ∷ 193 ∷ 29 ∷ 158 ∷ 225 ∷ 248 ∷ 152 ∷ 17 ∷ 105 ∷ 217 ∷ 142 ∷ 148 ∷ 155 ∷ 30 ∷ 135 ∷ 233 ∷ 206
    ∷ 85 ∷ 40 ∷ 223 ∷ 140 ∷ 161 ∷ 137 ∷ 13 ∷ 191 ∷ 230 ∷ 66 ∷ 104 ∷ 65 ∷ 153 ∷ 45 ∷ 15 ∷ 176 ∷ 84
    ∷ 187 ∷ 22 ∷ []

abbrev inv_sbox_values : List ℕ
inv_sbox_values =
    82 ∷ 9 ∷ 106 ∷ 213 ∷ 48 ∷ 54 ∷ 165 ∷ 56 ∷ 191 ∷ 64 ∷ 163 ∷ 158 ∷ 129 ∷ 243 ∷ 215 ∷ 251 ∷ 124
    ∷ 227 ∷ 57 ∷ 130 ∷ 155 ∷ 47 ∷ 255 ∷ 135 ∷ 52 ∷ 142 ∷ 67 ∷ 68 ∷ 196 ∷ 222 ∷ 233 ∷ 203 ∷ 84 ∷ 123
    ∷ 148 ∷ 50 ∷ 166 ∷ 194 ∷ 35 ∷ 61 ∷ 238 ∷ 76 ∷ 149 ∷ 11 ∷ 66 ∷ 250 ∷ 195 ∷ 78 ∷ 8 ∷ 46 ∷ 161
    ∷ 102 ∷ 40 ∷ 217 ∷ 36 ∷ 178 ∷ 118 ∷ 91 ∷ 162 ∷ 73 ∷ 109 ∷ 139 ∷ 209 ∷ 37 ∷ 114 ∷ 248 ∷ 246 ∷ 100
    ∷ 134 ∷ 104 ∷ 152 ∷ 22 ∷ 212 ∷ 164 ∷ 92 ∷ 204 ∷ 93 ∷ 101 ∷ 182 ∷ 146 ∷ 108 ∷ 112 ∷ 72 ∷ 80 ∷ 253
    ∷ 237 ∷ 185 ∷ 218 ∷ 94 ∷ 21 ∷ 70 ∷ 87 ∷ 167 ∷ 141 ∷ 157 ∷ 132 ∷ 144 ∷ 216 ∷ 171 ∷ 0 ∷ 140 ∷ 188
    ∷ 211 ∷ 10 ∷ 247 ∷ 228 ∷ 88 ∷ 5 ∷ 184 ∷ 179 ∷ 69 ∷ 6 ∷ 208 ∷ 44 ∷ 30 ∷ 143 ∷ 202 ∷ 63 ∷ 15 ∷ 2
    ∷ 193 ∷ 175 ∷ 189 ∷ 3 ∷ 1 ∷ 19 ∷ 138 ∷ 107 ∷ 58 ∷ 145 ∷ 17 ∷ 65 ∷ 79 ∷ 103 ∷ 220 ∷ 234 ∷ 151
    ∷ 242 ∷ 207 ∷ 206 ∷ 240 ∷ 180 ∷ 230 ∷ 115 ∷ 150 ∷ 172 ∷ 116 ∷ 34 ∷ 231 ∷ 173 ∷ 53 ∷ 133 ∷ 226
    ∷ 249 ∷ 55 ∷ 232 ∷ 28 ∷ 117 ∷ 223 ∷ 110 ∷ 71 ∷ 241 ∷ 26 ∷ 113 ∷ 29 ∷ 41 ∷ 197 ∷ 137 ∷ 111 ∷ 183
    ∷ 98 ∷ 14 ∷ 170 ∷ 24 ∷ 190 ∷ 27 ∷ 252 ∷ 86 ∷ 62 ∷ 75 ∷ 198 ∷ 210 ∷ 121 ∷ 32 ∷ 154 ∷ 219 ∷ 192
    ∷ 254 ∷ 120 ∷ 205 ∷ 90 ∷ 244 ∷ 31 ∷ 221 ∷ 168 ∷ 51 ∷ 136 ∷ 7 ∷ 199 ∷ 49 ∷ 177 ∷ 18 ∷ 16 ∷ 89
    ∷ 39 ∷ 128 ∷ 236 ∷ 95 ∷ 96 ∷ 81 ∷ 127 ∷ 169 ∷ 25 ∷ 181 ∷ 74 ∷ 13 ∷ 45 ∷ 229 ∷ 122 ∷ 159 ∷ 147
    ∷ 201 ∷ 156 ∷ 239 ∷ 160 ∷ 224 ∷ 59 ∷ 77 ∷ 174 ∷ 42 ∷ 245 ∷ 176 ∷ 200 ∷ 235 ∷ 187 ∷ 60 ∷ 131 ∷ 83
    ∷ 153 ∷ 97 ∷ 23 ∷ 43 ∷ 4 ∷ 126 ∷ 186 ∷ 119 ∷ 214 ∷ 38 ∷ 225 ∷ 105 ∷ 20 ∷ 99 ∷ 85 ∷ 33 ∷ 12 ∷ 125
    ∷ []

abbrev rcon_values : List ℕ
rcon_values = 0 ∷ 1 ∷ 2 ∷ 4 ∷ 8 ∷ 16 ∷ 32 ∷ 64 ∷ 128 ∷ 27 ∷ 54 ∷ []

abbrev computed : Tables
computed = record { sbox = sbox_values; inv_sbox = inv_sbox_values; rcon = rcon_values }

-- The values that `init_tables` computes.
init_tables-eq-computed : init_tables ≡ computed
unfolding init_tables
init_tables-eq-computed = refl

undoes_table : all_below 256 (λ a. get_or inv_sbox_values (get_or sbox_values a 0) 0 == a) ≡ true
unfolding all_below
undoes_table = refl

is_byte_table : all_below 256 (λ a. ltb (get_or sbox_values a 0) 256) ≡ true
unfolding all_below
is_byte_table = refl

computed-IsInvertible : IsInvertible computed
computed-IsInvertible = record {
  undoes = λ a h.
      all_equal 256 (λ b. get_or inv_sbox_values (get_or sbox_values b 0) 0) (λ b. b) a undoes_table
        h;
  is_byte = λ a h.
      ltb→lt (get_or sbox_values a 0) 256
        (all_below_sound 256 (λ b. ltb (get_or sbox_values b 0) 256) a is_byte_table h);
}

-- The tables that `init_tables` computes are inverse to one another: for every byte `a`,
-- `inv_sbox[sbox[a]]` is `a`, and `sbox[a]` is a byte.
pub init_tables-IsInvertible : IsInvertible init_tables
init_tables-IsInvertible = rw init_tables-eq-computed computed-IsInvertible

inverse_table : all_below 256 (λ a. gmul a (inv_of a) == (if a == 0 then 0 else 1)) ≡ true
unfolding all_below inv_of
inverse_table = refl

-- For every byte the search of `init_tables` finds the multiplicative inverse in GF(2^8), and 0
-- for 0.
pub gmul-inv_of : (a : ℕ) → a < 256 → gmul a (inv_of a) ≡ (if a == 0 then 0 else 1)
gmul-inv_of a h =
    all_equal 256 (λ b. gmul b (inv_of b)) (λ b. if b == 0 then 0 else 1) a inverse_table h

xtime_table : all_below 256 (λ a. xtime a == gmul a 0x02) ≡ true
unfolding all_below xtime gmul
xtime_table = refl

mul9_table : all_below 256 (λ a. mul9 a == gmul a 0x09) ≡ true
unfolding all_below mul9 gmul
mul9_table = refl

mul11_table : all_below 256 (λ a. mul11 a == gmul a 0x0B) ≡ true
unfolding all_below mul11 gmul
mul11_table = refl

mul13_table : all_below 256 (λ a. mul13 a == gmul a 0x0D) ≡ true
unfolding all_below mul13 gmul
mul13_table = refl

mul14_table : all_below 256 (λ a. mul14 a == gmul a 0x0E) ≡ true
unfolding all_below mul14 gmul
mul14_table = refl

-- On every byte the helpers for constant factors agree with the general field multiplication
-- `gmul`: `xtime` multiplies by 2, and `mul9`, `mul11`, `mul13`, `mul14` by 9, 11, 13 and 14.
pub constants-gmul :
    (a : ℕ)
    → a < 256
    → (xtime a ≡ gmul a 0x02)
      × (mul9 a ≡ gmul a 0x09)
      × (mul11 a ≡ gmul a 0x0B)
      × (mul13 a ≡ gmul a 0x0D)
      × (mul14 a ≡ gmul a 0x0E)
constants-gmul a h = (
  all_equal 256 xtime (λ b. gmul b 0x02) a xtime_table h,
  all_equal 256 mul9 (λ b. gmul b 0x09) a mul9_table h,
  all_equal 256 mul11 (λ b. gmul b 0x0B) a mul11_table h,
  all_equal 256 mul13 (λ b. gmul b 0x0D) a mul13_table h,
  all_equal 256 mul14 (λ b. gmul b 0x0E) a mul14_table h,
)
