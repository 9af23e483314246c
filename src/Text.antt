-- ===== src/Text.antt =====
-- Names as Go strings: NameString of btree.go, macroman.go, and of Go's library the conversion of
-- runes to a string and utf16.Decode. A Go string is the list of its bytes.
pub mod Names
pub mod Folding
use libhfs.Prelude.{
  ℕ, ◌+◌, ◌-◌, ◌*◌, ◌/◌, ◌%◌, Bool, ◌&&◌, ◌||◌, List, [], ◌∷◌, ◌++◌, map, ltb, leb, if◌then◌else◌,
  get_or,
}
use libhfs.Bytes.{Bytes}

-- The units 0xD800 to 0xDBFF and 0xDC00 to 0xDFFF.
abbrev pub is_high : ℕ → Bool
is_high u = leb 55296 u && ltb u 56320

abbrev pub is_low : ℕ → Bool
is_low u = leb 56320 u && ltb u 57344

-- U+FFFD
abbrev pub replacement : Bytes
replacement = 239 ∷ 191 ∷ 189 ∷ []

-- One rune of `string(runes)`: a surrogate or a number beyond Unicode becomes U+FFFD.
unfoldable pub encode_rune : ℕ → Bytes
encode_rune r =
    if ltb r 128
    then r ∷ []
    else if ltb r 2048
    then (192 + r / 64) ∷ (128 + r % 64) ∷ []
    else if is_high r || is_low r || ltb 1114111 r
    then replacement
    else if ltb r 65536
    then (224 + r / 4096) ∷ (128 + r / 64 % 64) ∷ (128 + r % 64) ∷ []
    else (240 + r / 262144) ∷ (128 + r / 4096 % 64) ∷ (128 + r / 64 % 64) ∷ (128 + r % 64) ∷ []

-- `string(runes)`
unfoldable pub go_string : List ℕ → Bytes
go_string [] = []
go_string (r ∷ rs) = encode_rune r ++ go_string rs

-- A pair of a high and a low surrogate as the code point that it stands for.
abbrev pub joined : ℕ → ℕ → ℕ
joined a b = 65536 + (a - 55296) * 1024 + (b - 56320)

-- A unit on its own: a surrogate becomes U+FFFD.
abbrev pub alone : ℕ → ℕ
alone a = if is_high a || is_low a then 65533 else a

-- utf16.Decode
unfoldable pub utf16_decode : List ℕ → List ℕ
utf16_decode [] = []
utf16_decode (a ∷ []) = alone a ∷ []
utf16_decode (a ∷ b ∷ us) =
    let pair = joined a b ∷ utf16_decode us in
    let single = alone a ∷ utf16_decode (b ∷ us) in if is_high a && is_low b then pair else single

-- CatalogKey.NameString: each unit is taken for a rune.
unfoldable pub name_string : List ℕ → Bytes
name_string units = go_string units

-- `string(utf16.Decode(units))`, for the names of threads and attributes.
unfoldable pub decoded_name : List ℕ → Bytes
decoded_name units = go_string (utf16_decode units)

pub data TextEncoding : Type 0 where
  mac_roman raw : TextEncoding

-- macRomanHigh
abbrev pub mac_roman_high : List ℕ
mac_roman_high =
    196 ∷ 197 ∷ 199 ∷ 201 ∷ 209 ∷ 214 ∷ 220 ∷ 225 ∷ 224 ∷ 226 ∷ 228 ∷ 227 ∷ 229 ∷ 231 ∷ 233 ∷ 232
    ∷ 234 ∷ 235 ∷ 237 ∷ 236 ∷ 238 ∷ 239 ∷ 241 ∷ 243 ∷ 242 ∷ 244 ∷ 246 ∷ 245 ∷ 250 ∷ 249 ∷ 251 ∷ 252
    ∷ 8224 ∷ 176 ∷ 162 ∷ 163 ∷ 167 ∷ 8226 ∷ 182 ∷ 223 ∷ 174 ∷ 169 ∷ 8482 ∷ 180 ∷ 168 ∷ 8800 ∷ 198
    ∷ 216 ∷ 8734 ∷ 177 ∷ 8804 ∷ 8805 ∷ 165 ∷ 181 ∷ 8706 ∷ 8721 ∷ 8719 ∷ 960 ∷ 8747 ∷ 170 ∷ 186 ∷ 937
    ∷ 230 ∷ 248 ∷ 191 ∷ 161 ∷ 172 ∷ 8730 ∷ 402 ∷ 8776 ∷ 8710 ∷ 171 ∷ 187 ∷ 8230 ∷ 160 ∷ 192 ∷ 195
    ∷ 213 ∷ 338 ∷ 339 ∷ 8211 ∷ 8212 ∷ 8220 ∷ 8221 ∷ 8216 ∷ 8217 ∷ 247 ∷ 9674 ∷ 255 ∷ 376 ∷ 8260
    ∷ 8364 ∷ 8249 ∷ 8250 ∷ 64257 ∷ 64258 ∷ 8225 ∷ 183 ∷ 8218 ∷ 8222 ∷ 8240 ∷ 194 ∷ 202 ∷ 193 ∷ 203
    ∷ 200 ∷ 205 ∷ 206 ∷ 207 ∷ 204 ∷ 211 ∷ 212 ∷ 63743 ∷ 210 ∷ 218 ∷ 219 ∷ 217 ∷ 305 ∷ 710 ∷ 732
    ∷ 175 ∷ 728 ∷ 729 ∷ 730 ∷ 184 ∷ 733 ∷ 731 ∷ 711 ∷ []

abbrev pub mac_roman_rune : ℕ → ℕ
mac_roman_rune c = if ltb c 128 then c else get_or mac_roman_high (c - 128) 0

unfoldable pub decode_raw_bytes : Bytes → Bytes
decode_raw_bytes b = go_string b

unfoldable pub decode_mac_roman : Bytes → Bytes
decode_mac_roman b = go_string (map mac_roman_rune b)

-- decodeHFSName
unfoldable pub decode_hfs_name : TextEncoding → Bytes → Bytes
decode_hfs_name enc [] = []
decode_hfs_name raw (c ∷ b) = decode_raw_bytes (c ∷ b)
decode_hfs_name mac_roman (c ∷ b) = decode_mac_roman (c ∷ b)
