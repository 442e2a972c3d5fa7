-- ===== src/Session/State.antt =====
-- src/libsessionutility/sessionutility.hpp and sessionutility.cpp: headers, actions, sessions and
-- the container of the sessions. The bodies of the actions are parameters.
use mesh_pp.Prelude.{
  ℕ, Bool, true, false, ◌&&◌, ◌||◌, Option, none, some, List, [], ◌∷◌, String, string_discrete,
  if◌then◌else◌, ite, Result,
}

unfoldable pub same_text : String → String → Bool
unfolding string_discrete
same_text s t = ite (string_discrete s t) true false

-- What the class template asks of a header: the keys of the two unique indices of the container (the
-- second one is there for some headers only), `operator ==` and `keys_same`.
pub record HeaderClass : Type 1 where
  pub Header : Type 0
  pub peerid : Header → String
  pub second_key : Header → Option String
  pub same_header : Header → Header → Bool
  pub keys_same : Header → Header → Bool

pub record NodeidSessionHeader (Address : Type 0) : Type 0 where
  pub address : Address
  pub peerid : String
  pub nodeid : String

pub record SessionHeader : Type 0 where
  pub peerid : String

-- `nodeid_session_header`, of any equality of addresses.
abbrev pub nodeid_headers : (Address : Type 0) → (Address → Address → Bool) → HeaderClass
nodeid_headers Address same_address = record {
  Header = NodeidSessionHeader Address;
  peerid = λ h. h.peerid;
  second_key = λ h. some h.nodeid;
  same_header = λ h g.
      same_address h.address g.address
      && same_text h.peerid g.peerid
      && same_text h.nodeid g.nodeid;
  keys_same = λ h g. same_text h.nodeid g.nodeid && same_address h.address g.address;
}

abbrev pub plain_headers : HeaderClass
plain_headers = record {
  Header = SessionHeader;
  peerid = λ h. h.peerid;
  second_key = λ h. none;
  same_header = λ h g. same_text h.peerid g.peerid;
  keys_same = λ h g. true;
}

-- `session_action`: the flags of the base class, and what the derived class keeps.
pub record Action (Own : Type 0) : Type 0 where
  pub own : Own
  pub initiated : Bool
  pub completed : Bool
  pub errored : Bool

-- The virtual functions, and the hash of the derived type. Both functions may change the action and
-- the header, and `process` the package too.
pub record ActionClass (Header : Type 0) : Type 1 where
  pub Own : Type 0
  pub Package : Type 0
  pub hash_code : Own → ℕ
  pub permanent : Action Own → Bool
  pub initiate : Action Own → Header → Result (Action Own × Header)
  pub process : Action Own → Package → Header → Result (Bool × Action Own × Package × Header)

pub record Session (Header Own : Type 0) : Type 0 where
  pub header : Header
  pub wait_for_contact : ℕ
  pub wait_duration : ℕ
  pub actions : List (Action Own)

unfoldable pub same_option : Option String → Option String → Bool
unfolding same_text
same_option (some s) (some t) = same_text s t
same_option (some s) none = false
same_option none o = false

module _ (headers : HeaderClass) (Own : Type 0) where
  abbrev pub Entry : Type 0
  Entry = Session headers.Header Own

  abbrev pub key_of : Entry → String
  key_of s = headers.peerid s.header

  -- Two elements that the unique indices do not let stand together.
  unfoldable pub clashes : Entry → Entry → Bool
  unfolding same_text same_option
  clashes s t =
      same_text (key_of t) (key_of s)
      || same_option (headers.second_key t.header) (headers.second_key s.header)

  unfoldable pub find_session : String → List Entry → Option Entry
  unfolding same_text
  find_session key [] = none
  find_session key (s ∷ sessions) =
      let rest = find_session key sessions in if same_text (key_of s) key then some s else rest

  unfoldable pub find_second : Option String → List Entry → Option Entry
  unfolding same_option
  find_second key [] = none
  find_second key (s ∷ sessions) =
      let rest = find_second key sessions in
      if same_option (headers.second_key s.header) key then some s else rest

  unfoldable pub erase_session : String → List Entry → List Entry
  unfolding same_text
  erase_session key [] = []
  erase_session key (s ∷ sessions) =
      let rest = erase_session key sessions in if same_text (key_of s) key then rest else s ∷ rest

  -- The element that keeps another one out: the first index is asked first.
  unfoldable pub blocked_by : Entry → List Entry → Option Entry
  unfolding find_session find_second
  blocked_by s sessions = elim (find_session (key_of s) sessions) [
    | some t ↦ some t
    | none ↦ find_second (headers.second_key s.header) sessions
  ]

  -- The element, unless another one keeps it out.
  unfoldable pub put : Option Entry → Entry → List Entry → List Entry
  put none s sessions = s ∷ sessions
  put (some t) s sessions = sessions

  -- `modify` of the element under a key: it is erased when its new keys are another's.
  unfoldable pub modify : String → Entry → List Entry → List Entry
  unfolding erase_session blocked_by put
  modify key s sessions = let rest = erase_session key sessions in put (blocked_by s rest) s rest
