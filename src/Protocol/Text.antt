-- ===== src/Protocol/Text.antt =====
-- pkg/gossip/protocol.go: the texts of the codes of messages and of errors, as the characters that they have.
use Prim.Native.Char.{code}
use Prim.Native.String.{String}
use sonicpeer.Base.{
  ℕ, zero, suc, ◌+◌, ◌/◌, ◌%◌, ◌≡◌, refl, Bool, true, false, ◌&&◌, List, [], ◌∷◌, ◌++◌, none, some,
  arith, if◌then◌else◌, ltb, ◌==◌, get_elem?,
}

abbrev codes : String → List ℕ
codes String.[] = []
codes (String.◌∷◌ c s) = code c ∷ codes s

-- The texts of the messages, in the order of their codes
abbrev names : List (List ℕ)
names =
    codes "Handshake"
    ∷ codes "Progress"
    ∷ codes "EvmTxs"
    ∷ codes "NewEvmTxHashes"
    ∷ codes "GetEvmTxs"
    ∷ codes "NewEventIDs"
    ∷ codes "GetEvents"
    ∷ codes "Events"
    ∷ codes "RequestEventsStream"
    ∷ codes "EventsStreamResponse"
    ∷ codes "GetPeerInfos"
    ∷ codes "PeerInfos"
    ∷ codes "GetEndPoint"
    ∷ codes "EndPointUpdate"
    ∷ []

-- A hexadecimal digit of `%x`
abbrev digit : ℕ → ℕ
digit d = if ltb d 10 then 48 + d else 87 + d

-- The digits of `%x`, each round one of them; 16 rounds are enough for 64 bits.
hex : ℕ → ℕ → List ℕ → List ℕ
hex zero n rest = rest
hex (suc fuel) n rest =
    let more = hex fuel (n / 16) (digit (n % 16) ∷ rest) in if n == 0 then rest else more

-- `%02x`
padded : ℕ → List ℕ
unfolding hex
padded n = if ltb n 16 then 48 ∷ digit n ∷ [] else hex 16 n []

-- `MsgCodeToString`
msg_code_to_string : ℕ → List ℕ
unfolding padded
msg_code_to_string code = elim (get_elem? names code) [
  | some name ↦ name
  | none ↦ codes "Unknown(0x" ++ padded code ++ codes ")"
]

same : List ℕ → List ℕ → Bool
same [] [] = true
same [] (d ∷ ds) = false
same (c ∷ cs) [] = false
same (c ∷ cs) (d ∷ ds) = c == d && same cs ds

-- The place of a text among others, the number of these if it is not there
abbrev place : List ℕ → List (List ℕ) → ℕ
place text [] = 0
place text (name ∷ others) =
    let later = place text others in if same text name then 0 else suc later

-- The text of a message names its code, and no text of an unknown code is the name of a message.
place-msg_code_to_string :
    (code : ℕ) → place (msg_code_to_string code) names ≡ (if ltb code 14 then code else 14)
unfolding msg_code_to_string same
place-msg_code_to_string zero = refl
place-msg_code_to_string (suc zero) = refl
place-msg_code_to_string (suc (suc zero)) = refl
place-msg_code_to_string (suc (suc (suc zero))) = refl
place-msg_code_to_string (suc (suc (suc (suc zero)))) = refl
place-msg_code_to_string (suc (suc (suc (suc (suc zero))))) = refl
place-msg_code_to_string (suc (suc (suc (suc (suc (suc zero)))))) = refl
place-msg_code_to_string (suc (suc (suc (suc (suc (suc (suc zero))))))) = refl
place-msg_code_to_string (suc (suc (suc (suc (suc (suc (suc (suc zero)))))))) = refl
place-msg_code_to_string (suc (suc (suc (suc (suc (suc (suc (suc (suc zero))))))))) = refl
place-msg_code_to_string (suc (suc (suc (suc (suc (suc (suc (suc (suc (suc zero)))))))))) = refl
place-msg_code_to_string (suc (suc (suc (suc (suc (suc (suc (suc (suc (suc (suc zero))))))))))) =
    refl
place-msg_code_to_string
      (suc (suc (suc (suc (suc (suc (suc (suc (suc (suc (suc (suc zero)))))))))))) =
    refl
place-msg_code_to_string
      (suc (suc (suc (suc (suc (suc (suc (suc (suc (suc (suc (suc (suc zero))))))))))))) =
    refl
place-msg_code_to_string
      (suc (suc (suc (suc (suc (suc (suc (suc (suc (suc (suc (suc (suc (suc n)))))))))))))) =
    ground arith

-- `errorToString`, of the codes from ErrMsgTooLarge to ErrUnSyncedPeer
abbrev error_names : List (List ℕ)
error_names =
    codes "Message too long"
    ∷ codes "Invalid message"
    ∷ codes "Invalid message code"
    ∷ codes "Protocol version mismatch"
    ∷ codes "NetworkId mismatch"
    ∷ codes "Genesis object mismatch"
    ∷ codes "No status message"
    ∷ codes "Extra status message"
    ∷ codes "Suspended peer"
    ∷ []

-- `errCode.String`: a code that the map does not have has no text.
error_to_string : ℕ → List ℕ
error_to_string code =
    if code == 3840
    then codes "Empty message"
    else elim (get_elem? error_names code) [ some name ↦ name | none ↦ [] ]

-- ErrUnSyncedPeer has the code 9.
un_synced_peer_empty : error_to_string 9 ≡ []
unfolding error_to_string
un_synced_peer_empty = refl

unknown_hex : msg_code_to_string 4660 ≡ codes "Unknown(0x1234)"
unfolding msg_code_to_string padded hex
unknown_hex = refl

unknown_padded : msg_code_to_string 14 ≡ codes "Unknown(0x0e)"
unfolding msg_code_to_string padded
unknown_padded = refl
