-- ===== src/Config/Defaults.antt =====
-- `config_init` and `config_setup` of src/config.c: the configuration before bopm.conf is read.
use bopm.Prelude.{List, [], Bytes, codes}
use bopm.Config.{IrcConf, OptionsConf, OpmConf, UserConf, ScannerConf}

abbrev pub default_kline : Bytes
default_kline =
    codes
      "KLINE %u@%h :Open Proxy found on your host. Please visit www.blitzed.org/proxy?ip=%i for more information."

-- `IRCItem`.
unfoldable pub default_irc : IrcConf
default_irc = record {
  nick = codes "bopm";
  username = codes "bopm";
  realname = codes "Blitzed Open Proxy Monitor";
  server = codes "myserver.blitzed.org";
  port = 6667;
  password = [];
  vhost = [];
  nickserv = [];
  oper = codes "undefined";
  mode = codes "+cs";
  away = codes "I'm a bot, don't message me";
  connregex =
      codes
        "\\*\\*\\* Notice -- Client connecting: ([^ ]+) \\(([^@]+)@([^\\)]+)\\) \\[([0-9\\.]+)\\].*";
  kline = default_kline;
  channels = [];
  performs = [];
}

-- `OptionsItem`; the NULL of `scanlog` is no byte.
unfoldable pub default_options : OptionsConf
default_options = record {
  negcache = 0;
  dns_fdlimit = 50;
  pidfile = codes "bopm.pid";
  scanlog = [];
}

-- `OpmItem`.
unfoldable pub default_opm : OpmConf
default_opm = record {
  blacklists = [];
  dnsbl_from = [];
  dnsbl_to = [];
  sendmail = codes "/usr/sbin/sendmail";
}

-- The lists `UserItemList`, `ScannerItemList` and `ExemptItem->masks`.
pub record Lists : Type 0 where
  pub users : List UserConf
  pub scanners : List ScannerConf
  pub exempt_masks : List Bytes

unfoldable pub default_lists : Lists
default_lists = record { users = []; scanners = []; exempt_masks = [] }
