-- ===== src/Color/Predefined.antt =====
-- `argb_colors` of include/essence/argb_color.hpp, in the order of the source.
use cpp_essence.Prelude.{List, [], ◌∷◌, ◌++◌, Bytes, codes}
use cpp_essence.Color.{ArgbColor, opaque}

pub record NamedColor : Type 0 where
  pub name : Bytes
  pub color : ArgbColor

abbrev named : Bytes → ArgbColor → NamedColor
named name color = record { name = name; color = color }

abbrev pub predefined_1 : List NamedColor
predefined_1 =
    named (codes "alice_blue") (opaque 240 248 255)
    ∷ named (codes "light_salmon") (opaque 255 160 122)
    ∷ named (codes "antique_white") (opaque 250 235 215)
    ∷ named (codes "light_sea_green") (opaque 32 178 170)
    ∷ named (codes "aqua") (opaque 0 255 255)
    ∷ named (codes "light_sky_blue") (opaque 135 206 250)
    ∷ named (codes "aquamarine") (opaque 127 255 212)
    ∷ named (codes "light_slate_gray") (opaque 119 136 153)
    ∷ named (codes "azure") (opaque 240 255 255)
    ∷ named (codes "light_steel_blue") (opaque 176 196 222)
    ∷ named (codes "beige") (opaque 245 245 220)
    ∷ named (codes "light_yellow") (opaque 255 255 224)
    ∷ named (codes "bisque") (opaque 255 228 196)
    ∷ named (codes "lime") (opaque 0 255 0)
    ∷ named (codes "black") (opaque 0 0 0)
    ∷ named (codes "lime_green") (opaque 50 205 50)
    ∷ named (codes "blanched_almond") (opaque 255 255 205)
    ∷ named (codes "linen") (opaque 250 240 230)
    ∷ named (codes "blue") (opaque 0 0 255)
    ∷ named (codes "magenta") (opaque 255 0 255)
    ∷ named (codes "blue_violet") (opaque 138 43 226)
    ∷ named (codes "maroon") (opaque 128 0 0)
    ∷ named (codes "brown") (opaque 165 42 42)
    ∷ named (codes "medium_aquamarine") (opaque 102 205 170)
    ∷ []

abbrev pub predefined_2 : List NamedColor
predefined_2 =
    named (codes "burly_wood") (opaque 222 184 135)
    ∷ named (codes "medium_blue") (opaque 0 0 205)
    ∷ named (codes "cadet_blue") (opaque 95 158 160)
    ∷ named (codes "medium_orchid") (opaque 186 85 211)
    ∷ named (codes "chartreuse") (opaque 127 255 0)
    ∷ named (codes "medium_purple") (opaque 147 112 219)
    ∷ named (codes "chocolate") (opaque 210 105 30)
    ∷ named (codes "medium_sea_green") (opaque 60 179 113)
    ∷ named (codes "coral") (opaque 255 127 80)
    ∷ named (codes "medium_slate_blue") (opaque 123 104 238)
    ∷ named (codes "cornflower_blue") (opaque 100 149 237)
    ∷ named (codes "medium_spring_green") (opaque 0 250 154)
    ∷ named (codes "cornsilk") (opaque 255 248 220)
    ∷ named (codes "medium_turquoise") (opaque 72 209 204)
    ∷ named (codes "crimson") (opaque 220 20 60)
    ∷ named (codes "medium_violet_red") (opaque 199 21 112)
    ∷ named (codes "cyan") (opaque 0 255 255)
    ∷ named (codes "midnight_blue") (opaque 25 25 112)
    ∷ named (codes "dark_blue") (opaque 0 0 139)
    ∷ named (codes "mint_cream") (opaque 245 255 250)
    ∷ named (codes "dark_cyan") (opaque 0 139 139)
    ∷ named (codes "misty_rose") (opaque 255 228 225)
    ∷ named (codes "dark_goldenrod") (opaque 184 134 11)
    ∷ named (codes "moccasin") (opaque 255 228 181)
    ∷ []

abbrev pub predefined_3 : List NamedColor
predefined_3 =
    named (codes "dark_gray") (opaque 169 169 169)
    ∷ named (codes "navajo_white") (opaque 255 222 173)
    ∷ named (codes "dark_green") (opaque 0 100 0)
    ∷ named (codes "navy") (opaque 0 0 128)
    ∷ named (codes "dark_khaki") (opaque 189 183 107)
    ∷ named (codes "old_lace") (opaque 253 245 230)
    ∷ named (codes "dark_magena") (opaque 139 0 139)
    ∷ named (codes "olive") (opaque 128 128 0)
    ∷ named (codes "dark_olive_green") (opaque 85 107 47)
    ∷ named (codes "olive_drab") (opaque 107 142 45)
    ∷ named (codes "dark_orange") (opaque 255 140 0)
    ∷ named (codes "orange") (opaque 255 165 0)
    ∷ named (codes "dark_orchid") (opaque 153 50 204)
    ∷ named (codes "orange_red") (opaque 255 69 0)
    ∷ named (codes "dark_red") (opaque 139 0 0)
    ∷ named (codes "orchid") (opaque 218 112 214)
    ∷ named (codes "dark_salmon") (opaque 233 150 122)
    ∷ named (codes "pale_goldenrod") (opaque 238 232 170)
    ∷ named (codes "dark_sea_green") (opaque 143 188 143)
    ∷ named (codes "pale_green") (opaque 152 251 152)
    ∷ named (codes "dark_slate_blue") (opaque 72 61 139)
    ∷ named (codes "pale_turquoise") (opaque 175 238 238)
    ∷ named (codes "dark_slate_gray") (opaque 40 79 79)
    ∷ named (codes "pale_violet_red") (opaque 219 112 147)
    ∷ []

abbrev pub predefined_4 : List NamedColor
predefined_4 =
    named (codes "dark_turquoise") (opaque 0 206 209)
    ∷ named (codes "papaya_whip") (opaque 255 239 213)
    ∷ named (codes "dark_violet") (opaque 148 0 211)
    ∷ named (codes "peach_puff") (opaque 255 218 155)
    ∷ named (codes "deep_pink") (opaque 255 20 147)
    ∷ named (codes "peru") (opaque 205 133 63)
    ∷ named (codes "deep_sky_blue") (opaque 0 191 255)
    ∷ named (codes "pink") (opaque 255 192 203)
    ∷ named (codes "dim_gray") (opaque 105 105 105)
    ∷ named (codes "plum") (opaque 221 160 221)
    ∷ named (codes "dodger_blue") (opaque 30 144 255)
    ∷ named (codes "powder_blue") (opaque 176 224 230)
    ∷ named (codes "firebrick") (opaque 178 34 34)
    ∷ named (codes "purple") (opaque 128 0 128)
    ∷ named (codes "floral_white") (opaque 255 250 240)
    ∷ named (codes "red") (opaque 255 0 0)
    ∷ named (codes "forest_green") (opaque 34 139 34)
    ∷ named (codes "rosy_brown") (opaque 188 143 143)
    ∷ named (codes "fuschia") (opaque 255 0 255)
    ∷ named (codes "royal_blue") (opaque 65 105 225)
    ∷ named (codes "gainsboro") (opaque 220 220 220)
    ∷ named (codes "saddle_brown") (opaque 139 69 19)
    ∷ named (codes "ghost_white") (opaque 248 248 255)
    ∷ named (codes "salmon") (opaque 250 128 114)
    ∷ []

abbrev pub predefined_5 : List NamedColor
predefined_5 =
    named (codes "gold") (opaque 255 215 0)
    ∷ named (codes "sandy_brown") (opaque 244 164 96)
    ∷ named (codes "goldenrod") (opaque 218 165 32)
    ∷ named (codes "sea_green") (opaque 46 139 87)
    ∷ named (codes "gray") (opaque 128 128 128)
    ∷ named (codes "seashell") (opaque 255 245 238)
    ∷ named (codes "green") (opaque 0 128 0)
    ∷ named (codes "sienna") (opaque 160 82 45)
    ∷ named (codes "green_yellow") (opaque 173 255 47)
    ∷ named (codes "silver") (opaque 192 192 192)
    ∷ named (codes "honeydew") (opaque 240 255 240)
    ∷ named (codes "sky_blue") (opaque 135 206 235)
    ∷ named (codes "hot_pink") (opaque 255 105 180)
    ∷ named (codes "slate_blue") (opaque 106 90 205)
    ∷ named (codes "indian_red") (opaque 205 92 92)
    ∷ named (codes "slate_gray") (opaque 112 128 144)
    ∷ named (codes "indigo") (opaque 75 0 130)
    ∷ named (codes "snow") (opaque 255 250 250)
    ∷ named (codes "ivory") (opaque 255 240 240)
    ∷ named (codes "spring_green") (opaque 0 255 127)
    ∷ named (codes "khaki") (opaque 240 230 140)
    ∷ named (codes "steel_blue") (opaque 70 130 180)
    ∷ named (codes "lavender") (opaque 230 230 250)
    ∷ named (codes "tan") (opaque 210 180 140)
    ∷ []

abbrev pub predefined_6 : List NamedColor
predefined_6 =
    named (codes "lavender_blush") (opaque 255 240 245)
    ∷ named (codes "teal") (opaque 0 128 128)
    ∷ named (codes "lawn_green") (opaque 124 252 0)
    ∷ named (codes "thistle") (opaque 216 191 216)
    ∷ named (codes "lemon_chiffon") (opaque 255 250 205)
    ∷ named (codes "tomato") (opaque 253 99 71)
    ∷ named (codes "light_blue") (opaque 173 216 230)
    ∷ named (codes "turquoise") (opaque 64 224 208)
    ∷ named (codes "light_coral") (opaque 240 128 128)
    ∷ named (codes "violet") (opaque 238 130 238)
    ∷ named (codes "light_cyan") (opaque 224 255 255)
    ∷ named (codes "wheat") (opaque 245 222 179)
    ∷ named (codes "light_goldenrod_yellow") (opaque 250 250 210)
    ∷ named (codes "white") (opaque 255 255 255)
    ∷ named (codes "light_green") (opaque 144 238 144)
    ∷ named (codes "white_smoke") (opaque 245 245 245)
    ∷ named (codes "light_gray") (opaque 211 211 211)
    ∷ named (codes "yellow") (opaque 255 255 0)
    ∷ named (codes "light_pink") (opaque 255 182 193)
    ∷ named (codes "yellow_green") (opaque 154 205 50)
    ∷ []

abbrev pub argb_colors : List NamedColor
argb_colors =
    predefined_1 ++ predefined_2 ++ predefined_3 ++ predefined_4 ++ predefined_5 ++ predefined_6
