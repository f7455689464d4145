-- ===== src/Bitstring/Tests.antt =====
-- bitstring-send.c on concrete inputs.
use cs.Base.{◌≡◌, refl, Bytes, codes}
use cs.Bitstring.{wrong_length, not_bit, is_bitstring, check_bits, check_input, State, Step, Reach}
use cs.Bitstring.Sending.{received-whole}
use cs.Bitstring.Schedules.{finished, can_finish, deadlock, lost_answer-stops}

abbrev input : Bytes
input = codes "10110010"

input_is_bitstring : check_input input ≡ is_bitstring
unfolding check_input check_bits
input_is_bitstring = refl

a_letter : check_input (codes "1011x010") ≡ not_bit 4 b'x'
unfolding check_input check_bits
a_letter = refl

too_short : check_input (codes "1011") ≡ wrong_length
unfolding check_input check_bits
too_short = refl

received-whole_example : (finished input).received ≡ input
received-whole_example = received-whole input_is_bitstring (can_finish input_is_bitstring) refl

lost_answer-stops_example :
    Reach input (deadlock b'1' b'0' (codes "110010"))
    × ((t : State) → ¬ Step (deadlock b'1' b'0' (codes "110010")) t)
lost_answer-stops_example = lost_answer-stops b'1' b'0' (codes "110010") input_is_bitstring
