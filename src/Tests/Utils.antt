-- ===== src/Tests/Utils.antt =====
-- A run of FirstHostAndPrefix.
use cluster_api_provider_lib.Shared.{ℕ, ◌+◌, ◌*◌, ◌≡◌, refl, str_eq, if◌then◌else◌}
use cluster_api_provider_lib.Errors.{message}
use cluster_api_provider_lib.Errors.Exec.{ok, err}
use cluster_api_provider_lib.Network.{IpNet}
use cluster_api_provider_lib.Utils.{CidrLib, first_host_and_prefix}
use cluster_api_provider_lib.Tests.Host.{net_lib, letters}

abbrev subnet : IpNet ℕ
subnet = record { ip = 16; mask = 29 }

-- A mask is given by its number of ones.
abbrev cidr_lib : CidrLib net_lib
cidr_lib = record {
  parse_cidr = λ s. if str_eq s "0.0.0.19/29" then ok (19, subnet) else err (message "invalid");
  mask_ones = λ mask. mask;
  ipv4 = λ a b c d. a * 16_777_216 + b * 65_536 + c * 256 + d;
}

-- The first host of the subnet from 16 on is 17.
first_host : first_host_and_prefix net_lib cidr_lib "0.0.0.19/29" ≡ ok (letters 17, 29)
unfolding first_host_and_prefix letters
first_host = refl
