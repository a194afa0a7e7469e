-- ===== src/Witnesses/Buffers.antt =====
-- Discarding across two Buffers, as BufferList and BufferViewList do.
use computer_network_labs.Base.{◌≡◌, refl, none, some, [], ◌∷◌, arith}
use computer_network_labs.Buffer.{
  of_string, visible, str, size, release, remove_prefix, BufferList, put_front, list_remove_prefix,
  views, view_remove_prefix,
}
use computer_network_labs.Buffer.Views.{views_of, Loses, list_remove_prefix-Loses, stored}

abbrev packet : BufferList
packet = of_string (1 ∷ 2 ∷ 3 ∷ []) ∷ of_string (4 ∷ 5 ∷ []) ∷ []

list_remove_prefix-inside :
    list_remove_prefix 4 packet
    ≡ some (record { storage = some (4 ∷ 5 ∷ []); starting_offset = 1 } ∷ [])
unfolding list_remove_prefix put_front remove_prefix release size str visible of_string
list_remove_prefix-inside = refl

view_remove_prefix-inside : view_remove_prefix 4 (views packet) ≡ some ((5 ∷ []) ∷ [])
unfolding view_remove_prefix views str visible of_string
view_remove_prefix-inside = refl

list_remove_prefix-none : list_remove_prefix 6 packet ≡ none
unfolding list_remove_prefix put_front remove_prefix release size str visible of_string
list_remove_prefix-none = refl

list_remove_prefix-Loses_example :
    Loses 4 packet (list_remove_prefix 4 packet)
    × (view_remove_prefix 4 (views packet) ≡ views_of (list_remove_prefix 4 packet))
unfolding of_string
list_remove_prefix-Loses_example =
    list_remove_prefix-Loses 4 packet (stored _ _ (omega arith), (stored _ _ (omega arith), tt))
