-- ===== src/Address/Tests.antt =====
-- The address 192.168.1.10.
use i_free_chat.Base.{◌≡◌, some, arith}
use i_free_chat.Address.{ip2str, str2ip, str2ip-ip2str}

str2ip-ip2str_example : str2ip (ip2str 3232235786) ≡ some 3232235786
str2ip-ip2str_example = str2ip-ip2str 3232235786 (omega arith)
