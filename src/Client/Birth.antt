-- ===== src/Client/Birth.antt =====
-- client.hpp, client.cpp: the constructor of a client, its destructor, and the counter of the extra nonces.
use epic_poold.Base.{
  ℕ, ◌+◌, ◌*◌, ◌/◌, ◌%◌, ◌^◌, true, false, Option, none, some, List, [], ◌∷◌, ◌++◌, if◌then◌else◌,
  take,
}
use epic_poold.Socks.{Socket, sock_close, sock_abort, soft_shutdown}
use epic_poold.Client.{Client, JobData}
use epic_poold.Node.Submit.{printed}

-- A client with the members that concern its connection.
pub record Member : Type 0 where
  pub fd : ℕ
  pub ip_addr_str : List ℕ
  pub active_time : ℕ
  pub client : Client

-- What a constructor is given: the descriptor, the port in the order of the network, the text that inet_ntop
-- makes of the address unless it fails, the clock, and what the memory of cur_job holds.
pub record Birth : Type 0 where
  pub fd : ℕ
  pub port : ℕ
  pub ip_text : Option (List ℕ)
  pub now : ℕ
  pub garbage : JobData

abbrev pub ntohs : ℕ → ℕ
ntohs port = port % 256 * 256 + port / 256 % 256

-- snprintf into 128 characters, of which one is the terminator.
unfoldable pub address_text : List ℕ → ℕ → List ℕ
address_text str port = take 127 (b'[' ∷ str ++ b']' ∷ b':' ∷ printed (ntohs port))

abbrev pub newborn : ℕ → Birth → List ℕ → Member
newborn extra_nonce birth str = record {
  fd = birth.fd;
  ip_addr_str = address_text str birth.port;
  active_time = birth.now;
  client = record {
    aborting = false;
    flood_timestamp = 0;
    flood_count = 0;
    logged_in = false;
    cur_job = birth.garbage;
    jobid = 0;
    extra_nonce = extra_nonce;
    sent = [];
    results = [];
  };
}

-- The constructor, with g_extra_nonce_ctr; none is an exception.
unfoldable pub construct_client : ℕ → Birth → Option Member × ℕ
unfolding address_text
construct_client extra_nonce_ctr birth = elim birth.ip_text [
  | none ↦ (none, extra_nonce_ctr)
  | some str ↦ (some (newborn extra_nonce_ctr birth str), (extra_nonce_ctr + 1) % 2 ^ 32)
]

-- The clients of a run of the program, in the order of their construction.
unfoldable pub construct_clients : ℕ → List Birth → List (Option Member)
unfolding construct_client
construct_clients extra_nonce_ctr [] = []
construct_clients extra_nonce_ctr (birth ∷ births) =
    let (m, extra_nonce_ctr') = construct_client extra_nonce_ctr birth in
    m ∷ construct_clients extra_nonce_ctr' births

-- The static limit on the calls, and what server::start sets it to; the other limits stand in a comment.
abbrev pub max_calls_per_min : ℕ
max_calls_per_min = 0

abbrev pub set_limits : ℕ → ℕ
set_limits limit = 60

abbrev pub hard_abort : Member × Socket → Member × Socket
hard_abort (m, s) = (record m { client = record m.client { aborting = true } }, soft_shutdown s)

-- The member function, which keeps the client.
abbrev pub shut_down : Member × Socket → Member × Socket
shut_down (m, s) = (m, soft_shutdown s)

-- The destructor, on the socket that fd names.
unfoldable pub destroy_client : Member → Socket → Socket
destroy_client m s = if m.client.aborting then sock_abort s else sock_close s
