-- ===== src/Sync/Memory.antt =====
-- A destination in memory, and two devices with one transaction, for the tests of the sync of
-- app/src/app/core/sync/sync.service.ts.
use easy_docket.Base.{
  ◌≡◌, inl, inr, ◌++◌, In, arith, Bool-cases, refl, Bool, true, false, Option, none, some, List, [],
  ◌∷◌, ◌==◌, if◌then◌else◌,
}
use easy_docket.Base.Text.{Text, codes, eq_text, eq_text→eq}
use easy_docket.Hlc.{Clock}
use easy_docket.Models.{transactions, Operation, OpKind, Entity}
use easy_docket.Sync.Remote.{
  Reply, ok, err, transport, Adapter, Header, OperationBatch, Payload, batch, Cipher, Vault, Device,
}
use easy_docket.Sync.Push.Delivers.{Keeps}
use easy_docket.Sync.Relay.{Serves}

-- A row with an id, a stamp and an amount.
pub record Note : Type 0 where
  pub id : Text
  pub updated_at : Text
  pub amount : Text

abbrev pub note_entity : Entity Note
note_entity = record {
  id = λ r. r.id;
  updated_at = λ r. r.updated_at;
  with_stamp = λ s r. record r { updated_at = s };
  id-with_stamp = λ s r. refl;
  updated_at-with_stamp = λ s r. refl;
}

abbrev pub Sealed : Type 0
Sealed = Header × Payload Note

abbrev pub plain : Cipher Note Sealed
plain = record { seal_json = λ h p. (h, p); open_json = λ b. some b }

abbrev pub Objects : Type 0
Objects = List (Text × Sealed)

-- Whether a text begins with another.
abbrev pub starts : Text → Text → Bool
starts [] t = true
starts (c ∷ p) [] = false
starts (c ∷ p) (x ∷ t) = if c == x then starts p t else false

abbrev pub names_under : Text → Objects → List Text
names_under prefix [] = []
names_under prefix ((name, b) ∷ s) =
    if starts prefix name then name ∷ names_under prefix s else names_under prefix s

abbrev pub object_at : Objects → Text → Option Sealed
object_at [] name = none
object_at ((other, b) ∷ s) name = if eq_text other name then some b else object_at s name

abbrev pub without : Text → Objects → Objects
without name [] = []
without name ((other, b) ∷ s) =
    if eq_text other name then without name s else (other, b) ∷ without name s

abbrev pub found_or_missing : Option Sealed → Reply Sealed
found_or_missing none = err (transport false)
found_or_missing (some b) = ok b

abbrev pub memory : Adapter Sealed
memory = record {
  Store = Objects;
  list = λ prefix s. (ok (names_under prefix s), s);
  get = λ name s. (found_or_missing (object_at s name), s);
  put = λ name b s. (ok tt, (name, b) ∷ s);
  remove = λ name s. (ok tt, without name s);
  flush = λ s. (ok tt, s);
}

pub memory-Keeps : Keeps memory object_at
memory-Keeps = record {
  stored = λ name b s. (name, b) ∷ s;
  put_lem = λ name b s. refl;
  content-stored = λ name other b s. refl;
}

starts_append : (p t : Text) → starts p (p ++ t) ≡ true
starts_append [] t = refl
starts_append (c ∷ p) t = ground (arith, starts_append p t)

names_under-In :
    (prefix rest : Text) (b : Sealed) (s : Objects)
    → object_at s (prefix ++ rest) ≡ some b
    → In (prefix ++ rest) (names_under prefix s)
names_under-In prefix rest b [] h = cc
names_under-In prefix rest b ((name, c) ∷ s) h = elim (Bool-cases (eq_text name (prefix ++ rest))) [
  | inl same ↦
      (let e = eq_text→eq name (prefix ++ rest) same in
        rw (e, starts_append prefix rest) (inl refl))
  | inr differ ↦ weaker (names_under-In prefix rest b s (rw differ at h))
]
  where
    weaker :
        In (prefix ++ rest) (names_under prefix s)
        → In
            (prefix ++ rest)
            (if starts prefix name then name ∷ names_under prefix s else names_under prefix s)
    weaker m = elim (Bool-cases (starts prefix name)) [ inl y ↦ rw y (inr m) | inr n ↦ rw n m ]

found-ok : (o : Option Sealed) (b : Sealed) → o ≡ some b → found_or_missing o ≡ ok b
found-ok o b e = rw e refl

pub memory-Serves : (s : Objects) → Serves memory object_at s (λ prefix. names_under prefix s)
memory-Serves s = record {
  gives = λ name b h i. (found-ok (object_at s name) b h i, s);
  lists = λ prefix. refl;
  finds = λ prefix rest b h. names_under-In prefix rest b s h;
}

abbrev pub phone : Text
phone = codes "3f9a2c17"

abbrev pub laptop : Text
laptop = codes "0b00c5a1"

abbrev pub home : Text
home = codes "v1"

abbrev pub phone_vault : Vault
phone_vault = record { vault_id = home; device_id = phone }

abbrev pub laptop_vault : Vault
laptop_vault = record { vault_id = home; device_id = laptop }

abbrev pub ten : Text
ten = codes "0000000000000000010-0000-3f9a2c17"

abbrev pub lunch : Note
lunch = record { id = codes "t1"; updated_at = ten; amount = codes "12" }

abbrev pub put_lunch : Operation Note
put_lunch = record {
  hlc = ten;
  entity = transactions;
  entity_id = codes "t1";
  op = OpKind.put;
  value = some lunch;
  device = phone;
}

abbrev pub at_ten : Clock
at_ten = record { device = phone; state = record { physical = 10; counter = 0 } }

abbrev pub at_five : Clock
at_five = record { device = laptop; state = record { physical = 5; counter = 0 } }

-- The phone, on which lunch was written, and the laptop, which knows nothing.
abbrev pub on_phone : Device Note
on_phone = record {
  ledger = record {
    tables = ((transactions, codes "t1"), lunch) ∷ [];
    oplog = record { operation = put_lunch; synced = false } ∷ [];
    saved_clock = none;
    clock = some at_ten;
  };
  applied = [];
  last_sync = none;
  last_snapshot = none;
}

abbrev pub on_laptop : Device Note
on_laptop = record {
  ledger = record { tables = []; oplog = []; saved_clock = none; clock = some at_five };
  applied = [];
  last_sync = none;
  last_snapshot = none;
}

-- The object that the phone uploads.
abbrev pub lunch_batch : OperationBatch Note
lunch_batch = record { vault_id = home; device = phone; head = ten; ops = put_lunch ∷ [] }

abbrev pub lunch_header : Header
lunch_header = record { vault = home; device = phone; stamp = ten }

abbrev pub lunch_name : Text
lunch_name = codes "vaults/v1/ops/0000000000000000010-0000-3f9a2c17.edk"

abbrev pub at_destination : Objects
at_destination = (lunch_name, (lunch_header, batch lunch_batch)) ∷ []
