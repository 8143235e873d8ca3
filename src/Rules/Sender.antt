-- ===== src/Rules/Sender.antt =====
-- services/rules/br_04.py: a signal is accepted only from a supplier or carrier that SAP master data
-- knows. The parsing of an address to its domain and of a number to its E.164 form is the standard
-- library's, a parameter, as is `str.strip`.
use aera_be.Prelude.{
  String, str_eq, contains, ◌≡◌, refl, ap, ◌∙◌, any, inl, inr, Bool, true, false, ◌&&◌, ◌||◌,
  Option, none, some, List, [], ◌∷◌, ◌++◌, arith, All, &&→both, Bool-cases, if◌then◌else◌,
}

pub data PartnerKind : Type 0 where
  supplier carrier : PartnerKind

-- The domains and the phones are sets; the lists may repeat an element.
pub record PartnerContact : Type 0 where
  pub partner_id : String
  pub kind : PartnerKind
  pub email_domains : List String
  pub phones : List String

pub data Channel : Type 0 where
  email whatsapp carrier_feed : Channel
  other_channel : String → Channel

abbrev is_carrier : PartnerKind → Bool
is_carrier supplier = false
is_carrier carrier = true

abbrev given_in : Option String → List String → Bool
given_in none xs = false
given_in (some x) xs = contains x xs

-- `next((c for c in contacts if …), None)`
unfoldable pub first_that : (PartnerContact → Bool) → List PartnerContact → Option PartnerContact
first_that p [] = none
first_that p (c ∷ cs) = let rest = first_that p cs in if p c then some c else rest

abbrev pair_of : Option String → Option String → List (String × String)
pair_of (some a) (some b) = (a, b) ∷ []
pair_of _ _ = []

-- The team's numbers that stand in for one of the phones.
abbrev pub standing_in : List String → List (String × String) → List String
standing_in phones [] = []
standing_in phones ((team, sap) ∷ rest) =
    if contains sap phones then team ∷ standing_in phones rest else standing_in phones rest

same_text : (a : String) → str_eq a a ≡ true
same_text a = ground arith

module _ (email_domain e164 : String → Option String) (strip : String → String) where
  -- The test of a contact on a channel.
  abbrev is_sender : Channel → String → PartnerContact → Bool
  is_sender email sender c = given_in (email_domain sender) c.email_domains
  is_sender whatsapp sender c = given_in (e164 sender) c.phones
  is_sender carrier_feed sender c = is_carrier c.kind && str_eq c.partner_id (strip sender)
  is_sender (other_channel _) sender c = false

  unfoldable pub verify_sender : Channel → String → List PartnerContact → Option PartnerContact
  unfolding first_that
  verify_sender (other_channel _) sender contacts = none
  verify_sender email sender contacts = first_that (is_sender email sender) contacts
  verify_sender whatsapp sender contacts = first_that (is_sender whatsapp sender) contacts
  verify_sender carrier_feed sender contacts = first_that (is_sender carrier_feed sender) contacts

  -- The stand-ins that are numbers on both sides.
  abbrev pub known_pairs : List (String × String) → List (String × String)
  known_pairs [] = []
  known_pairs ((team, sap) ∷ rest) = pair_of (e164 team) (e164 sap) ++ known_pairs rest

  abbrev pub with_standins : List (String × String) → PartnerContact → PartnerContact
  with_standins known c = record c { phones = c.phones ++ standing_in c.phones known }

  abbrev each : (PartnerContact → PartnerContact) → List PartnerContact → List PartnerContact
  each f [] = []
  each f (c ∷ cs) = f c ∷ each f cs

  unfoldable pub with_phone_standins :
      List PartnerContact → List (String × String) → List PartnerContact
  with_phone_standins contacts standins = each (with_standins (known_pairs standins)) contacts

  -- Who may send on a channel: a contact with the address's domain, with the number, or the carrier
  -- whose id is the sender.
  abbrev pub Sends : Channel → String → PartnerContact → Type 0
  Sends email sender c =
      (d : String) × (email_domain sender ≡ some d) × (contains d c.email_domains ≡ true)
  Sends whatsapp sender c = (n : String) × (e164 sender ≡ some n) × (contains n c.phones ≡ true)
  Sends carrier_feed sender c = (c.kind ≡ carrier) × (c.partner_id ≡ strip sender)
  Sends (other_channel _) sender c = ⊥

  given_in-some :
      (o : Option String) (xs : List String)
      → given_in o xs ≡ true
      → (x : String) × (o ≡ some x) × (contains x xs ≡ true)
  given_in-some none xs h = cc h
  given_in-some (some x) xs h = (x, refl, h)

  given_in-not :
      (o : Option String) (xs : List String) (x : String)
      → given_in o xs ≡ false
      → o ≡ some x
      → contains x xs ≡ true
      → ⊥
  given_in-not none xs x h e m = cc e
  given_in-not (some y) xs x h e m = ground arith

  is_carrier-kind : (k : PartnerKind) → is_carrier k ≡ true → k ≡ carrier
  is_carrier-kind supplier h = cc h
  is_carrier-kind carrier h = refl

  is_sender-Sends :
      (channel : Channel) (sender : String) (c : PartnerContact)
      → is_sender channel sender c ≡ true
      → Sends channel sender c
  is_sender-Sends email sender c h = given_in-some (email_domain sender) c.email_domains h
  is_sender-Sends whatsapp sender c h = given_in-some (e164 sender) c.phones h
  is_sender-Sends carrier_feed sender c h =
      let (kind, same) = &&→both (is_carrier c.kind) (str_eq c.partner_id (strip sender)) h in
      (is_carrier-kind c.kind kind, ground (arith, same))
  is_sender-Sends (other_channel _) sender c h = cc h

  not_sender :
      (channel : Channel) (sender : String) (c : PartnerContact)
      → is_sender channel sender c ≡ false
      → ¬ Sends channel sender c
  not_sender email sender c h (d, e, m) = given_in-not (email_domain sender) c.email_domains d h e m
  not_sender whatsapp sender c h (n, e, m) = given_in-not (e164 sender) c.phones n h e m
  not_sender carrier_feed sender c h (kind, same) = cc (rw (kind, same, same_text) at h)
  not_sender (other_channel _) sender c h s = s

  -- What an answer says of the contacts: the first that may send, or that none of them may.
  abbrev pub IsAnswer : Channel → String → List PartnerContact → Option PartnerContact → Type 0
  IsAnswer channel sender contacts none = All (λ c. ¬ Sends channel sender c) contacts
  IsAnswer channel sender contacts (some c) =
      (before : List PartnerContact) × (after : List PartnerContact) × (contacts
        ≡ before ++ c ∷ after)
      × All (λ b. ¬ Sends channel sender b) before
      × Sends channel sender c

  one_earlier :
      (channel : Channel) (sender : String) (x : PartnerContact) (xs : List PartnerContact)
      (o : Option PartnerContact)
      → ¬ Sends channel sender x
      → IsAnswer channel sender xs o
      → IsAnswer channel sender (x ∷ xs) o
  one_earlier channel sender x xs none n a = (n, a)
  one_earlier channel sender x xs (some c) n (before, after, e, b, s) =
      (x ∷ before, after, ap (λ ys. x ∷ ys) e, (n, b), s)

  first_that-IsAnswer :
      (channel : Channel) (sender : String) (contacts : List PartnerContact)
      → IsAnswer channel sender contacts (first_that (is_sender channel sender) contacts)
  unfolding first_that
  first_that-IsAnswer channel sender [] = tt
  first_that-IsAnswer channel sender (x ∷ xs) = elim (Bool-cases (is_sender channel sender x)) [
    | inl y ↦ rw (y, first_that) ([], xs, refl, tt, is_sender-Sends channel sender x y)
    | inr n ↦
        rw (n, first_that)
          (one_earlier channel sender x xs (first_that (is_sender channel sender) xs)
            (not_sender channel sender x n) (first_that-IsAnswer channel sender xs))
  ]

  none_sends :
      (channel : String) (sender : String) (contacts : List PartnerContact)
      → IsAnswer (other_channel channel) sender contacts none
  none_sends channel sender [] = tt
  none_sends channel sender (c ∷ cs) = ((λ s. s), none_sends channel sender cs)

  -- A sender is verified as the first of the given contacts that has its address's domain, its
  -- number, or, on the carrier feed, its id and is a carrier; it is refused only if no contact has,
  -- or the channel is another.
  pub verify_sender-IsAnswer :
      (channel : Channel) (sender : String) (contacts : List PartnerContact)
      → IsAnswer channel sender contacts (verify_sender channel sender contacts)
  unfolding verify_sender
  verify_sender-IsAnswer email sender contacts = first_that-IsAnswer email sender contacts
  verify_sender-IsAnswer whatsapp sender contacts = first_that-IsAnswer whatsapp sender contacts
  verify_sender-IsAnswer carrier_feed sender contacts =
      first_that-IsAnswer carrier_feed sender contacts
  verify_sender-IsAnswer (other_channel o) sender contacts = none_sends o sender contacts

  contains-append :
      (x : String) (xs ys : List String) → contains x (xs ++ ys) ≡ (contains x xs || contains x ys)
  contains-append x [] ys = refl
  contains-append x (y ∷ xs) ys = ground (arith, contains-append x xs ys)

  standing_in-contains :
      (x : String) (phones : List String) (known : List (String × String))
      → contains x (standing_in phones known) ≡ any (λ q. str_eq q.0 x && contains q.1 phones) known
  standing_in-contains x phones [] = refl
  standing_in-contains x phones ((team, sap) ∷ rest) = elim (Bool-cases (contains sap phones)) [
    | inl y ↦ rw (y, standing_in-contains x phones rest) (ground arith)
    | inr n ↦ rw (n, standing_in-contains x phones rest) (ground arith)
  ]

  -- With the stand-ins a contact has a phone exactly when SAP has it, or it stands in for a number
  -- that SAP has for this contact; so a stand-in for nobody's number adds nothing.
  pub standins-exact :
      (x : String) (standins : List (String × String)) (c : PartnerContact)
      → contains x (with_standins (known_pairs standins) c).phones ≡ (
          contains x c.phones
          || any (λ q. str_eq q.0 x && contains q.1 c.phones) (known_pairs standins))
  standins-exact x standins c =
      contains-append x c.phones (standing_in c.phones (known_pairs standins))
      ∙ ap (λ b. contains x c.phones || b) (standing_in-contains x c.phones (known_pairs standins))
