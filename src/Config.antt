-- ===== src/Config.antt =====
-- The configuration of src/config.h that the other parts read. A `char *` is its bytes, a `list_t *`
-- the list of its data, in order. Reading bopm.conf is not modelled.
pub mod Defaults
use bopm.Prelude.{ℕ, List, Bytes, Bool}

pub record ChannelConf : Type 0 where
  pub name : Bytes
  pub key : Bytes
  pub invite : Bytes

pub record IrcConf : Type 0 where
  pub nick : Bytes
  pub username : Bytes
  pub realname : Bytes
  pub server : Bytes
  pub port : ℕ
  pub password : Bytes
  pub vhost : Bytes
  pub nickserv : Bytes
  pub oper : Bytes
  pub mode : Bytes
  pub away : Bytes
  pub connregex : Bytes
  pub kline : Bytes
  pub channels : List ChannelConf
  pub performs : List Bytes

-- `negcache` is an `int`; a value that is not positive turns the cache off, and stands here as 0.
pub record OptionsConf : Type 0 where
  pub negcache : ℕ
  pub dns_fdlimit : ℕ
  pub pidfile : Bytes
  pub scanlog : Bytes

pub record UserConf : Type 0 where
  pub masks : List Bytes
  pub scanners : List Bytes

-- The constants `OPM_TYPE_…` of libopm that the program tests for; any other value is `unknown`.
pub data ProtocolType : Type 0 where
  http httppost socks4 socks5 wingate router unknown : ProtocolType

pub record ProtocolConf : Type 0 where
  pub type : ProtocolType
  pub port : ℕ

-- Without `target_string_created`, which only the parser reads.
pub record ScannerConf : Type 0 where
  pub name : Bytes
  pub protocols : List ProtocolConf
  pub vhost : Bytes
  pub fd : ℕ
  pub target_ip : Bytes
  pub target_port : ℕ
  pub timeout : ℕ
  pub max_read : ℕ
  pub target_string : List Bytes

pub data BlacklistType : Type 0 where
  a_bitmask a_reply : BlacklistType

-- `number` is a `char`, given by its bit pattern, 0 to 255.
pub record BlacklistReplyConf : Type 0 where
  pub number : ℕ
  pub type : Bytes

pub record BlacklistConf : Type 0 where
  pub name : Bytes
  pub kline : Bytes
  pub type : BlacklistType
  pub ban_unknown : Bool
  pub reply : List BlacklistReplyConf
  pub stats_recv : ℕ

pub record OpmConf : Type 0 where
  pub blacklists : List BlacklistConf
  pub dnsbl_from : Bytes
  pub dnsbl_to : Bytes
  pub sendmail : Bytes
