-- ===== src/Match/Table.antt =====
-- The table `ToLowerTab` of match.c, and the proof that it is the ASCII case fold.
use bopm.Prelude.{
  ◌+◌, ℕ, zero, suc, ◌≤◌, ◌<◌, ◌≡◌, refl, Bool, true, ◌&&◌, List, none, some, [], ◌∷◌, arith, ◌==◌,
  Bytes, lower_ascii, length, get_elem?,
}
use native.Mathlib.Decide.{dec_lt}

to_lower_tab : Bytes
to_lower_tab =
    0 ∷ 1 ∷ 2 ∷ 3 ∷ 4 ∷ 5 ∷ 6 ∷ 7 ∷ 8 ∷ 9 ∷ 10 ∷ 11 ∷ 12 ∷ 13 ∷ 14 ∷ 15 ∷ 16 ∷ 17 ∷ 18 ∷ 19 ∷ 20
    ∷ 21 ∷ 22 ∷ 23 ∷ 24 ∷ 25 ∷ 26 ∷ 27 ∷ 28 ∷ 29 ∷ 30 ∷ 31 ∷ 32 ∷ 33 ∷ 34 ∷ 35 ∷ 36 ∷ 37 ∷ 38 ∷ 39
    ∷ 40 ∷ 41 ∷ 42 ∷ 43 ∷ 44 ∷ 45 ∷ 46 ∷ 47 ∷ 48 ∷ 49 ∷ 50 ∷ 51 ∷ 52 ∷ 53 ∷ 54 ∷ 55 ∷ 56 ∷ 57 ∷ 58
    ∷ 59 ∷ 60 ∷ 61 ∷ 62 ∷ 63 ∷ 64 ∷ 97 ∷ 98 ∷ 99 ∷ 100 ∷ 101 ∷ 102 ∷ 103 ∷ 104 ∷ 105 ∷ 106 ∷ 107
    ∷ 108 ∷ 109 ∷ 110 ∷ 111 ∷ 112 ∷ 113 ∷ 114 ∷ 115 ∷ 116 ∷ 117 ∷ 118 ∷ 119 ∷ 120 ∷ 121 ∷ 122 ∷ 91
    ∷ 92 ∷ 93 ∷ 94 ∷ 95 ∷ 96 ∷ 97 ∷ 98 ∷ 99 ∷ 100 ∷ 101 ∷ 102 ∷ 103 ∷ 104 ∷ 105 ∷ 106 ∷ 107 ∷ 108
    ∷ 109 ∷ 110 ∷ 111 ∷ 112 ∷ 113 ∷ 114 ∷ 115 ∷ 116 ∷ 117 ∷ 118 ∷ 119 ∷ 120 ∷ 121 ∷ 122 ∷ 123 ∷ 124
    ∷ 125 ∷ 126 ∷ 127 ∷ 128 ∷ 129 ∷ 130 ∷ 131 ∷ 132 ∷ 133 ∷ 134 ∷ 135 ∷ 136 ∷ 137 ∷ 138 ∷ 139 ∷ 140
    ∷ 141 ∷ 142 ∷ 143 ∷ 144 ∷ 145 ∷ 146 ∷ 147 ∷ 148 ∷ 149 ∷ 150 ∷ 151 ∷ 152 ∷ 153 ∷ 154 ∷ 155 ∷ 156
    ∷ 157 ∷ 158 ∷ 159 ∷ 160 ∷ 161 ∷ 162 ∷ 163 ∷ 164 ∷ 165 ∷ 166 ∷ 167 ∷ 168 ∷ 169 ∷ 170 ∷ 171 ∷ 172
    ∷ 173 ∷ 174 ∷ 175 ∷ 176 ∷ 177 ∷ 178 ∷ 179 ∷ 180 ∷ 181 ∷ 182 ∷ 183 ∷ 184 ∷ 185 ∷ 186 ∷ 187 ∷ 188
    ∷ 189 ∷ 190 ∷ 191 ∷ 192 ∷ 193 ∷ 194 ∷ 195 ∷ 196 ∷ 197 ∷ 198 ∷ 199 ∷ 200 ∷ 201 ∷ 202 ∷ 203 ∷ 204
    ∷ 205 ∷ 206 ∷ 207 ∷ 208 ∷ 209 ∷ 210 ∷ 211 ∷ 212 ∷ 213 ∷ 214 ∷ 215 ∷ 216 ∷ 217 ∷ 218 ∷ 219 ∷ 220
    ∷ 221 ∷ 222 ∷ 223 ∷ 224 ∷ 225 ∷ 226 ∷ 227 ∷ 228 ∷ 229 ∷ 230 ∷ 231 ∷ 232 ∷ 233 ∷ 234 ∷ 235 ∷ 236
    ∷ 237 ∷ 238 ∷ 239 ∷ 240 ∷ 241 ∷ 242 ∷ 243 ∷ 244 ∷ 245 ∷ 246 ∷ 247 ∷ 248 ∷ 249 ∷ 250 ∷ 251 ∷ 252
    ∷ 253 ∷ 254 ∷ 255 ∷ []

-- The macro `ToLower`. Its cast to `unsigned char` keeps the index below 256; a number past the
-- table stands for itself here.
unfoldable pub to_lower : ℕ → ℕ
unfolding to_lower_tab
to_lower c = elim (get_elem? to_lower_tab c) [ none ↦ c | some d ↦ d ]

-- Each entry of a table that begins at the index `k` is the lower case of its index.
folds_from : ℕ → Bytes → Bool
folds_from k [] = true
folds_from k (d ∷ table) = d == lower_ascii k && folds_from (k + 1) table

table_holds : folds_from 0 to_lower_tab ≡ true
unfolding folds_from to_lower_tab
table_holds = refl

entry :
    (k : ℕ) (table : Bytes) (i c : ℕ)
    → folds_from k table ≡ true
    → i < length table
    → k + i ≡ c
    → get_elem? table i ≡ some (lower_ascii c)
unfolding folds_from
entry k [] i c h lt e = absurd (omega arith)
entry k (d ∷ table) zero c h lt e = let e' : k ≡ c = omega arith in rw (← e') (ground arith)
entry k (d ∷ table) (suc i) c h lt e =
    entry (k + 1) table i c (ground arith) (omega arith) (omega arith)

in_table : (c : ℕ) → c < 256 → to_lower c ≡ lower_ascii c
unfolding to_lower
in_table c h = rw (entry 0 to_lower_tab c c table_holds (unfold to_lower_tab in h) (omega arith))

get_elem?-none : (xs : List ℕ) (i : ℕ) → length xs ≤ i → get_elem? xs i ≡ none
get_elem?-none [] i h = refl
get_elem?-none (x ∷ xs) zero h = absurd (omega arith)
get_elem?-none (x ∷ xs) (suc i) h = get_elem?-none xs i (omega arith)

past_table : (c : ℕ) → 256 ≤ c → to_lower c ≡ c
unfolding to_lower to_lower_tab
past_table c h = rw (get_elem?-none to_lower_tab c h)

-- The table gives the lower case of an ASCII letter, and any other byte itself.
pub to_lower-eq-lower_ascii : (c : ℕ) → to_lower c ≡ lower_ascii c
to_lower-eq-lower_ascii c = elim (dec_lt c 256) [
  | yes h ↦ in_table c h
  | no h ↦ rw (past_table c (omega arith)) (ground arith)
]
